-- ===== src/Codec/Varint/Cut.antt =====
-- `decode_varint` of src/codec.rs looks at no byte behind the number.
use pipistrelle.Prelude.{
  ℕ, zero, suc, ◌+◌, ◌*◌, ◌%◌, ◌^◌, ◌≤◌, ◌<◌, ◌≡◌, bit_and, refl, arith, List, [], ◌∷◌, ◌++◌, take,
}
use pipistrelle.Codec.Outcome.{ok, err, incomplete}
use pipistrelle.Codec.Varint.{decode_varint_loop, decode_varint}
use pipistrelle.Codec.Varint.Bounds.{decode_varint_loop-read}

decode_varint_loop-append :
    (buf more : List ℕ) (m value n v read : ℕ)
    → decode_varint_loop buf m value n ≡ ok (v, read)
    → decode_varint_loop (buf ++ more) m value n ≡ ok (v, read)
unfolding decode_varint_loop
decode_varint_loop-append [] more m value n v read e = ground arith
decode_varint_loop-append (b ∷ buf) more m value n v read e = ground (
  arith,
  decode_varint_loop-append buf more (m * 128 % 2 ^ 32)
      ((value + bit_and b 127 * m % 2 ^ 32) % 2 ^ 32) (n + 1) v read,
)

-- Bytes added behind the number do not change it.
pub decode_varint-append :
    (buf more : List ℕ) {v read : ℕ}
    → decode_varint buf ≡ ok (v, read)
    → decode_varint (buf ++ more) ≡ ok (v, read)
unfolding decode_varint
decode_varint-append buf more e = decode_varint_loop-append buf more 1 0 0 _ _ e

decode_varint_loop-take :
    (buf : List ℕ) (i m value n v read : ℕ)
    → decode_varint_loop buf m value n ≡ ok (v, read)
    → (read ≤ n + i → decode_varint_loop (take i buf) m value n ≡ ok (v, read))
      × (n + i < read → decode_varint_loop (take i buf) m value n ≡ err incomplete)
unfolding decode_varint_loop
decode_varint_loop-take [] i m value n v read e = ground arith
decode_varint_loop-take (b ∷ buf) zero m value n v read e =
    let bounds = decode_varint_loop-read (b ∷ buf) m value n v read e in
    (λ h. absurd (omega (arith, bounds.0)), λ h. refl)
decode_varint_loop-take (b ∷ buf) (suc i) m value n v read e = ground (
  arith,
  decode_varint_loop-take buf i (m * 128 % 2 ^ 32) ((value + bit_and b 127 * m % 2 ^ 32) % 2 ^ 32)
      (n + 1) v read,
)

-- A part of the input that holds the number gives it, and a shorter one is incomplete.
pub decode_varint-take :
    (buf : List ℕ) (i : ℕ) {v read : ℕ}
    → decode_varint buf ≡ ok (v, read)
    → (read ≤ i → decode_varint (take i buf) ≡ ok (v, read))
      × (i < read → decode_varint (take i buf) ≡ err incomplete)
unfolding decode_varint
decode_varint-take buf i {v} {read} e = ground (arith, decode_varint_loop-take buf i 1 0 0 v read e)
