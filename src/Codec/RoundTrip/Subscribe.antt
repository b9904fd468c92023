-- ===== src/Codec/RoundTrip/Subscribe.antt =====
-- SUBSCRIBE of src/codec.rs: the payload written, and the packet read from it.
use pipistrelle.Codec.RoundTrip.Pieces.{length-write_u8, length-write_str}
use pipistrelle.Prelude.{
  ℕ, zero, suc, ◌≤◌, ◌≡◌, refl, ◌∙◌, arith, ap, All, List, [], ◌∷◌, ◌++◌, append_assoc, append-nil,
  length, length-append, true, false,
}
use pipistrelle.Codec.Outcome.{ok, bind_ok}
use pipistrelle.Codec.Wire.{
  IsVarint, IsStr, prefixed, write_str_lem, write_u8_lem, write_u16_lem, read_u8_lem, read_u16-be16,
  read_str-prefixed,
}
use pipistrelle.Codec.Write.{be16, write_u16, write_u8, write_str}
use pipistrelle.Codec.Packet.{Subscribe, subscribe, Subscription}
use pipistrelle.Codec.Decode.{subscriptions_loop, no_subscriptions, decode_subscribe}
use pipistrelle.Codec.Encode.{nonempty, push_subscriptions, subscribe_payload}
use pipistrelle.Codec.Properties.Sections.{section_bytes}
use pipistrelle.Codec.Properties.Subscribe.{
  subscribe_fields, encode_subscribe_properties, decode_subscribe_properties-section_bytes,
  encode_subscribe_properties_lem, encode_subscribe_properties-le,
}
use pipistrelle.Codec.RoundTrip.Valid.{IsSubscribe}

-- The bytes of the subscriptions.
subscription_bytes : List Subscription → List ℕ
subscription_bytes [] = []
subscription_bytes (s ∷ ss) = prefixed s.topic_filter ++ (s.options ∷ subscription_bytes ss)

push_subscriptions_lem :
    (ss : List Subscription) (payload : List ℕ)
    → All (λ s. IsStr s.topic_filter) ss
    → push_subscriptions ss payload ≡ payload ++ subscription_bytes ss
unfolding push_subscriptions subscription_bytes
push_subscriptions_lem [] payload h = rw append-nil
push_subscriptions_lem (s ∷ ss) payload h =
    push_subscriptions_lem ss _ h.1
    ∙ rw (write_u8_lem, write_str_lem s.topic_filter payload h.0.1) (simp append_assoc)

subscriptions_loop_lem :
    (ss done : List Subscription) (fuel : ℕ)
    → All (λ s. IsStr s.topic_filter) ss
    → length (subscription_bytes ss) ≤ fuel
    → subscriptions_loop fuel done (subscription_bytes ss) ≡ ok (done ++ ss)
unfolding subscriptions_loop subscription_bytes
subscriptions_loop_lem [] done zero h l = rw append-nil
subscriptions_loop_lem [] done (suc fuel) h l = rw append-nil
subscriptions_loop_lem (s ∷ ss) done zero h l = absurd (omega arith)
subscriptions_loop_lem (s ∷ ss) done (suc fuel) h l =
    let rest = subscription_bytes ss in
    bind_ok _ (read_str-prefixed s.topic_filter (s.options ∷ rest) h.0) (
      bind_ok _ (read_u8_lem s.options rest) (
        subscriptions_loop_lem ss (done ++ s ∷ []) fuel h.1
          (omega (arith, length-append s.topic_filter (s.options ∷ rest)))
        ∙ ap ok (append_assoc done (s ∷ []) ss)))

some_subscriptions : (ss : List Subscription) → nonempty ss ≡ true → no_subscriptions ss ≡ false
some_subscriptions (s ∷ ss) h = refl
some_subscriptions [] h = cc

length-push_subscriptions :
    (ss : List Subscription) (payload : List ℕ)
    → length payload ≤ length (push_subscriptions ss payload)
unfolding push_subscriptions
length-push_subscriptions [] payload = omega arith
length-push_subscriptions (s ∷ ss) payload = omega (
  arith,
  length-push_subscriptions ss (write_u8 s.options (write_str s.topic_filter payload)),
  length-write_u8 s.options (write_str s.topic_filter payload),
  length-write_str s.topic_filter payload,
)

module _ (pkt : Subscribe) (valid : IsSubscribe pkt)
    (fits : IsVarint (length (subscribe_payload pkt))) where
  fields_fit : IsVarint (length (subscribe_fields pkt.properties))
  unfolding subscribe_payload
  fields_fit = omega (
    arith,
    fits,
    encode_subscribe_properties-le pkt.properties (write_u16 pkt.packet_id []),
    length-push_subscriptions pkt.subscriptions
        (encode_subscribe_properties pkt.properties (write_u16 pkt.packet_id [])),
  )

  subscribe_payload_lem :
      subscribe_payload pkt
      ≡ be16 pkt.packet_id
        ++ (section_bytes (subscribe_fields pkt.properties) ++ subscription_bytes pkt.subscriptions)
  unfolding subscribe_payload
  subscribe_payload_lem =
      rw
        (
          push_subscriptions_lem pkt.subscriptions _ valid.subscriptions,
          encode_subscribe_properties_lem pkt.properties _ fields_fit,
          write_u16_lem,
        )
        (append_assoc (be16 pkt.packet_id) _ (subscription_bytes pkt.subscriptions))

  pub decode_subscribe-subscribe_payload :
      decode_subscribe 2 (subscribe_payload pkt) ≡ ok (subscribe pkt)
  unfolding decode_subscribe
  decode_subscribe-subscribe_payload = rw subscribe_payload_lem (
      bind_ok _ (read_u16-be16 pkt.packet_id _ valid.packet_id) (
        bind_ok _
          (decode_subscribe_properties-section_bytes pkt.properties _ valid.properties fields_fit)
          (bind_ok _
            (subscriptions_loop_lem pkt.subscriptions [] _ valid.subscriptions (omega arith))
            (rw (some_subscriptions pkt.subscriptions valid.some_subscription)))))
