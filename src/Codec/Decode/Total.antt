-- ===== src/Codec/Decode/Total.antt =====
-- `decode_packet` of src/codec.rs as a whole: it ends on every input, and where it panics.
use pipistrelle.Codec.Decode.Safety.{
  decode_connect_fields-Returns, slice_to-Halts, decode_connect-Halts, decode_conn_ack-Returns,
  decode_publish-Returns, decode_pub_ack-Returns, decode_subscribe-Returns, decode_sub_ack-Returns,
  decode_disconnect-Returns, slice_from-Halts,
}
use pipistrelle.Codec.Outcome.{bind_panic, malformed_packet, ok, err, panic, stuck, bind_ok}
use pipistrelle.Codec.Outcome.Safe.{
  Returns-cases, Returns, Returns-bind_value, Returns-if, Halts, Halts-bind, Halts-read, Halts-if,
  Returns→Halts,
}
use pipistrelle.Codec.Read.Safety.{slice_from_past, read_u8-IsSafe, decode_varint-Returns}
use pipistrelle.Codec.Decode.Framing.{IsFrame, framed, decode_packet-framed, decode_packet_short}
use pipistrelle.Codec.Decode.Streaming.{decode_packet_refused}
use pipistrelle.Prelude.{
  ◌||◌, ltb→lt, ℕ, ◌+◌, ◌/◌, ◌<◌, ◌≡◌, ◌≢◌, arith, List, ◌∷◌, length, Bool-cases, inl, inr, true,
  not, bit_and, ◌==◌, ltb, ltb→le,
}
use pipistrelle.Codec.Read.{read_u16, read_str}
use pipistrelle.Codec.Varint.{decode_varint}
use pipistrelle.Codec.Packet.{Packet, ConnectProperties}
use pipistrelle.Codec.Decode.{
  skip_will, decode_connect_fields, decode_ping, decode_body, decode_packet,
}
use pipistrelle.Codec.Properties.Connect.{decode_connect_properties}

decode_ping-Returns : (p : Packet) (flags n : ℕ) → Returns (decode_ping p flags n)
unfolding decode_ping
decode_ping-Returns p flags n =
    Returns-if {A = Packet} (not (flags == 0) || not (n == 0)) (err malformed_packet) (ok p)
      (λ _. tt) (λ _. tt)

-- Every type but CONNECT is read without a slice out of range.
decode_body-Returns :
    (t flags n : ℕ) (payload : List ℕ) → t ≢ 1 → Returns (decode_body t flags n payload)
unfolding decode_body
decode_body-Returns t flags n payload h =
    Returns-if (t == 1) _ _ (λ e. absurd (h (ground arith)))
      λ _.
        Returns-if (t == 2) _ _ (λ _. decode_conn_ack-Returns payload)
          λ _.
            Returns-if (t == 3) _ _ (λ _. decode_publish-Returns flags payload)
              λ _.
                Returns-if (t == 4) _ _ (λ _. decode_pub_ack-Returns payload)
                  λ _.
                    Returns-if (t == 8) _ _ (λ _. decode_subscribe-Returns flags payload)
                      λ _.
                        Returns-if (t == 9) _ _ (λ _. decode_sub_ack-Returns payload)
                          λ _.
                            Returns-if (t == 12) _ _ (λ _. decode_ping-Returns _ flags n)
                              λ _.
                                Returns-if (t == 13) _ _ (λ _. decode_ping-Returns _ flags n)
                                  λ _.
                                    Returns-if (t == 14) _ _
                                      (λ _. decode_disconnect-Returns payload) (λ _. tt)

decode_body-Halts : (t flags n : ℕ) (payload : List ℕ) → Halts (decode_body t flags n payload)
decode_body-Halts t flags n payload = elim (Bool-cases (t == 1)) [
  | inl e ↦ unfold decode_body in rw e (decode_connect-Halts flags payload)
  | inr e ↦ Returns→Halts _ (decode_body-Returns t flags n payload (ground arith))
]

decode_packet-Halts : (raw : List ℕ) → Halts (decode_packet raw)
unfolding decode_packet
decode_packet-Halts raw = Halts-read read_u8-IsSafe raw _ λ header buf.
    Halts-bind _ _ (Returns→Halts _ (decode_varint-Returns buf)) λ (n, read).
      Halts-bind _ _ (slice_from-Halts read buf) λ buf. Halts-if (ltb (length buf) n) _ _ tt (
        Halts-bind _ _ (slice_to-Halts n buf) λ payload.
          Halts-bind _ _ (decode_body-Halts (header / 16) (bit_and header 0x0f) n payload) λ p. tt)

framed-Returns :
    (header : ℕ) (hs : List ℕ) (len read : ℕ)
    → header / 16 ≢ 1
    → Returns (framed header hs len read)
unfolding framed
framed-Returns header hs len read h =
    Returns-bind_value _ _ (decode_body-Returns (header / 16) _ len _ h) (λ p e. tt)

-- `decode_packet` ends on every input: its loops never run out of fuel.
pub decode_packet-ne-stuck : (raw : List ℕ) → decode_packet raw ≢ stuck
decode_packet-ne-stuck raw e = rw e at (decode_packet-Halts raw)

decode_packet-Returns :
    (header : ℕ) (hs : List ℕ) → header / 16 ≢ 1 → Returns (decode_packet (header ∷ hs))
decode_packet-Returns header hs h =
    elim (Returns-cases (decode_varint hs) (decode_varint-Returns hs)) [
      | inr (x, refused) ↦ rw (decode_packet_refused header hs refused) tt
      | inl ((len, read), announced) ↦ elim (Bool-cases (ltb (length hs) (read + len))) [
        | inl short ↦ rw (decode_packet_short header hs len read announced (ltb→lt _ _ short)) tt
        | inr enough ↦
            let f : IsFrame hs len read = record {
              announced = announced;
              complete = ltb→le _ _ enough;
            } in
            rw (decode_packet-framed header hs len read f) (framed-Returns header hs len read h)
      ]
    ]

-- A buffer whose first byte is not that of a CONNECT makes `decode_packet` index nothing out of range.
pub decode_packet-ne-panic :
    (header : ℕ) (hs : List ℕ) → header / 16 ≢ 1 → decode_packet (header ∷ hs) ≢ panic
decode_packet-ne-panic header hs h e = rw e at (decode_packet-Returns header hs h)

-- The fields of a CONNECT, behind flags without the will's bit, are decoded or refused without a panic.
pub decode_connect_fields-ne-panic :
    (flags : ℕ) (payload : List ℕ)
    → bit_and flags 0x04 ≡ 0
    → decode_connect_fields flags payload ≢ panic
decode_connect_fields-ne-panic flags payload no_will e =
    rw e at (decode_connect_fields-Returns flags payload no_will)

-- A CONNECT whose will flag is set panics where the will's properties are said to be longer than
-- what is left of the payload.
pub decode_connect_fields-eq-panic :
    (flags : ℕ) (payload : List ℕ) {keep_alive : ℕ} {props : ConnectProperties}
    {client_id p₁ p₂ p₃ : List ℕ} {len read : ℕ}
    → bit_and flags 0x04 ≢ 0
    → read_u16 payload ≡ ok (keep_alive, p₁)
    → decode_connect_properties p₁ ≡ ok (props, p₂)
    → read_str p₂ ≡ ok (client_id, p₃)
    → decode_varint p₃ ≡ ok (len, read)
    → length p₃ < read + len
    → decode_connect_fields flags payload ≡ panic
unfolding decode_connect_fields skip_will
decode_connect_fields-eq-panic flags payload {p₃ = p₃} {len = len} {read = read} will e₁ e₂ e₃ e₄
      long =
    let flagged : not (bit_and flags 0x04 == 0) ≡ true = ground arith in
    bind_ok _ e₁ (
      bind_ok _ e₂ (
        bind_ok _ e₃ (
          rw flagged
            (bind_panic _ (bind_ok _ e₄ (bind_panic _ (slice_from_past (read + len) p₃ long)))))))
