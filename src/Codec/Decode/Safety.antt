-- ===== src/Codec/Decode/Safety.antt =====
-- `decode_packet` of src/codec.rs ends on every input, and indexes out of range only in a CONNECT
-- whose will flag is set.
use pipistrelle.Codec.Outcome.Safe.{
  Within-bind, Returns-bind, Halts, Halts-bind, Halts-read, Halts-if, Returns→Halts, Returns,
  Returns-bind_value, Returns-read, Returns-if, IsSafe,
}
use pipistrelle.Prelude.{
  leb, zero, suc, ◌≤◌, ◌≡◌, arith, [], ◌∷◌, ◌++◌, not, ◌==◌, ◌+◌, ℕ, ◌/◌, List, length, Bool, true,
  false, bit_and, ltb,
}
use pipistrelle.Codec.Outcome.{ok, Reader}
use pipistrelle.Codec.Read.{slice_from, read_str, read_u8, slice_to}
use pipistrelle.Codec.Properties.Connect.{decode_connect_properties-IsSafe}
use pipistrelle.Codec.Properties.Subscribe.{decode_subscribe_properties-IsSafe}
use pipistrelle.Codec.Properties.SubAck.{decode_sub_ack_properties-IsSafe}
use pipistrelle.Codec.Read.Safety.{
  read_str-shrinks, read_bytes-IsSafe, decode_varint-Returns, read_u8-IsSafe, read_u16-IsSafe,
  read_str-IsSafe,
}
use pipistrelle.Codec.Packet.{Subscription}
use pipistrelle.Prelude.Text.{bytes_eq}
use pipistrelle.Codec.Decode.{
  mqtt, skip_will, decode_connect_fields, decode_connect, subscriptions_loop, no_subscriptions,
  decode_subscribe, reason_codes_loop, decode_sub_ack, is_empty, read_if, decode_conn_ack,
  decode_publish, decode_reason, decode_pub_ack, decode_disconnect,
}
use pipistrelle.Codec.Properties.ConnAck.{decode_conn_ack_properties-IsSafe}
use pipistrelle.Codec.Properties.Publish.{decode_publish_properties-IsSafe}
use pipistrelle.Codec.Properties.PubAck.{decode_pub_ack_properties-IsSafe}
use pipistrelle.Codec.Properties.Disconnect.{decode_disconnect_properties-IsSafe}

read_if-IsSafe : {A : Type 0} (b : Bool) {m : Reader A} → IsSafe m → IsSafe (read_if b m)
unfolding read_if
read_if-IsSafe true {m} h = record {
  at = λ buf. Within-bind (length buf) (m buf) _ (h.at buf) (λ a rest l. l);
}
read_if-IsSafe false h = record { at = λ buf. omega arith }

pub decode_conn_ack-Returns : (payload : List ℕ) → Returns (decode_conn_ack payload)
unfolding decode_conn_ack
decode_conn_ack-Returns payload = Returns-read read_u8-IsSafe payload _ λ flags rest.
    Returns-read read_u8-IsSafe rest _
      λ code rest. Returns-read decode_conn_ack_properties-IsSafe rest _ λ props rest. tt

pub decode_publish-Returns : (flags : ℕ) (payload : List ℕ) → Returns (decode_publish flags payload)
unfolding decode_publish
decode_publish-Returns flags payload =
    Returns-if (ltb 2 (bit_and flags 6 / 2)) _ _ (λ _. tt)
      λ _. Returns-read read_str-IsSafe payload _ λ topic rest.
        Returns-read (read_if-IsSafe (ltb 0 (bit_and flags 6 / 2)) read_u16-IsSafe) rest _
          λ id rest. Returns-read decode_publish_properties-IsSafe rest _ λ props rest. tt

decode_reason-Returns :
    {P : Type 0} {decode : Reader P} (default : P) (payload : List ℕ)
    → IsSafe decode
    → Returns (decode_reason decode default payload)
unfolding decode_reason
decode_reason-Returns default payload safe =
    Returns-if (is_empty payload) _ _ (λ _. tt)
      λ _. Returns-read read_u8-IsSafe payload _ λ code rest.
        Returns-if (is_empty rest) _ _ (λ _. tt) λ _. Returns-read safe rest _ λ props rest. tt

pub decode_pub_ack-Returns : (payload : List ℕ) → Returns (decode_pub_ack payload)
unfolding decode_pub_ack
decode_pub_ack-Returns payload = Returns-read read_u16-IsSafe payload _ λ id rest.
    Returns-bind_value _ _ (decode_reason-Returns _ rest decode_pub_ack_properties-IsSafe) λ r e. tt

pub decode_disconnect-Returns : (payload : List ℕ) → Returns (decode_disconnect payload)
unfolding decode_disconnect
decode_disconnect-Returns payload =
    Returns-bind_value _ _ (decode_reason-Returns _ payload decode_disconnect_properties-IsSafe)
      λ r e. tt

-- The fuel suffices: each round takes a byte at least.
subscriptions_loop-Returns :
    (fuel : ℕ) (done : List Subscription) (s : List ℕ)
    → length s ≤ fuel
    → Returns (subscriptions_loop fuel done s)
unfolding subscriptions_loop
subscriptions_loop-Returns zero done [] h = tt
subscriptions_loop-Returns (suc fuel) done [] h = tt
subscriptions_loop-Returns zero done (b ∷ bs) h = absurd (omega arith)
subscriptions_loop-Returns (suc fuel) done (b ∷ bs) h =
    Returns-bind (length bs) (read_str (b ∷ bs)) _ (read_str-shrinks b bs) λ topic rest l.
      Returns-bind (length rest) (read_u8 rest) _ (read_u8-IsSafe.at rest)
        λ options rest' l'. subscriptions_loop-Returns fuel _ rest' (omega arith)

pub decode_subscribe-Returns :
    (flags : ℕ) (payload : List ℕ) → Returns (decode_subscribe flags payload)
unfolding decode_subscribe
decode_subscribe-Returns flags payload =
    Returns-if (not (flags == 2)) _ _ (λ _. tt)
      λ _. Returns-read read_u16-IsSafe payload _ λ id rest.
        Returns-read decode_subscribe_properties-IsSafe rest _ λ props rest.
          Returns-bind_value _ _ (subscriptions_loop-Returns _ [] rest (omega arith))
            λ subs e. Returns-if (no_subscriptions subs) _ _ (λ _. tt) (λ _. tt)

reason_codes_loop-Returns : (done s : List ℕ) → Returns (reason_codes_loop done s)
unfolding reason_codes_loop
reason_codes_loop-Returns done [] = tt
reason_codes_loop-Returns done (b ∷ bs) = reason_codes_loop-Returns (done ++ b ∷ []) bs

pub decode_sub_ack-Returns : (payload : List ℕ) → Returns (decode_sub_ack payload)
unfolding decode_sub_ack
decode_sub_ack-Returns payload = Returns-read read_u16-IsSafe payload _ λ id rest.
    Returns-read decode_sub_ack_properties-IsSafe rest _
      λ props rest. Returns-bind_value _ _ (reason_codes_loop-Returns [] rest) λ codes e. tt

-- Without a will, CONNECT is read like the others.
pub decode_connect_fields-Returns :
    (flags : ℕ) (payload : List ℕ)
    → bit_and flags 0x04 ≡ 0
    → Returns (decode_connect_fields flags payload)
unfolding decode_connect_fields
decode_connect_fields-Returns flags payload no_will =
    Returns-read read_u16-IsSafe payload _ λ keep_alive rest.
      Returns-read decode_connect_properties-IsSafe rest _ λ props rest.
        Returns-read read_str-IsSafe rest _ λ client_id rest. rw no_will (
          Returns-bind_value (ok rest) _ tt λ rest e.
            Returns-read (read_if-IsSafe (not (bit_and flags 0x80 == 0)) read_str-IsSafe) rest _
              λ user rest.
                Returns-read (read_if-IsSafe (not (bit_and flags 0x40 == 0)) read_bytes-IsSafe) rest
                  _ λ pass rest. tt)

-- `&buf[n..]` returns or panics, and so does the reader of the will.
pub slice_from-Halts : (n : ℕ) (buf : List ℕ) → Halts (slice_from n buf)
unfolding slice_from
slice_from-Halts n buf = Halts-if (leb n (length buf)) _ _ tt tt

pub slice_to-Halts : (n : ℕ) (buf : List ℕ) → Halts (slice_to n buf)
unfolding slice_to
slice_to-Halts n buf = Halts-if (leb n (length buf)) _ _ tt tt

skip_will-Halts : (payload : List ℕ) → Halts (skip_will payload)
unfolding skip_will
skip_will-Halts payload =
    Halts-bind _ _ (Returns→Halts _ (decode_varint-Returns payload)) λ (n, read).
      Halts-bind _ _ (slice_from-Halts (read + n) payload) λ rest.
        Halts-read read_u16-IsSafe rest _ λ n rest.
          Halts-bind _ _ (slice_from-Halts n rest)
            λ rest. Halts-read read_u16-IsSafe rest _ λ n rest. slice_from-Halts n rest

decode_connect_fields-Halts :
    (flags : ℕ) (payload : List ℕ) → Halts (decode_connect_fields flags payload)
unfolding decode_connect_fields
decode_connect_fields-Halts flags payload = Halts-read read_u16-IsSafe payload _ λ keep_alive rest.
    Halts-read decode_connect_properties-IsSafe rest _ λ props rest.
      Halts-read read_str-IsSafe rest _ λ client_id rest.
        Halts-bind _ _ (Halts-if (not (bit_and flags 0x04 == 0)) _ _ (skip_will-Halts rest) tt)
          λ rest.
            Halts-read (read_if-IsSafe (not (bit_and flags 0x80 == 0)) read_str-IsSafe) rest _
              λ user rest.
                Halts-read (read_if-IsSafe (not (bit_and flags 0x40 == 0)) read_bytes-IsSafe) rest _
                  λ pass rest. tt

pub decode_connect-Halts : (flags : ℕ) (payload : List ℕ) → Halts (decode_connect flags payload)
unfolding decode_connect
decode_connect-Halts flags payload = Halts-if (not (flags == 0)) _ _ tt (
    Halts-read read_str-IsSafe payload _ λ name rest. Halts-if (not (bytes_eq name mqtt)) _ _ tt (
      Halts-read read_u8-IsSafe rest _ λ level rest.
        Halts-if (not (level == 5)) _ _ tt
          (Halts-read read_u8-IsSafe rest _ λ flags rest. decode_connect_fields-Halts flags rest)))
