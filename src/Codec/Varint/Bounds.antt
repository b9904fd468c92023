-- ===== src/Codec/Varint/Bounds.antt =====
-- What `decode_varint` of src/codec.rs returns on any input.
use pipistrelle.Prelude.{
  ℕ, zero, suc, ◌+◌, ◌*◌, bit_and, ◌%◌, ◌^◌, ◌≤◌, ◌<◌, ◌≡◌, refl, arith, List, [], ◌∷◌, length, All,
}
use pipistrelle.Prelude.Bits.{low_seven, top_bit}
use pipistrelle.Codec.Outcome.{ok}
use pipistrelle.Codec.Varint.{decode_varint_loop, decode_varint}
use pipistrelle.Codec.Varint.Bytes.{Room, group_fits}

-- The bytes read: between one and those at hand.
pub decode_varint_loop-read :
    (buf : List ℕ) (m value n v read : ℕ)
    → decode_varint_loop buf m value n ≡ ok (v, read)
    → (n + 1 ≤ read) × (read ≤ n + length buf)
unfolding decode_varint_loop
decode_varint_loop-read [] m value n v read e = ground arith
decode_varint_loop-read (b ∷ buf) m value n v read e = ground (
  arith,
  decode_varint_loop-read buf (m * 128 % 2 ^ 32) ((value + bit_and b 127 * m % 2 ^ 32) % 2 ^ 32)
      (n + 1) v read,
)

pub decode_varint-read :
    (buf : List ℕ) (v read : ℕ)
    → decode_varint buf ≡ ok (v, read)
    → (1 ≤ read) × (read ≤ length buf)
unfolding decode_varint
decode_varint-read buf v read e = ground (arith, decode_varint_loop-read buf 1 0 0 v read e)

-- The value after `n` bytes is below the multiplier `128 ^ n`, and at most four bytes are read.
decode_varint_loop-bounds :
    (k : ℕ) (buf : List ℕ) (m value n v read : ℕ)
    → All (λ b. b < 256) buf
    → Room k m
    → value < m
    → n + k ≡ 3
    → decode_varint_loop buf m value n ≡ ok (v, read)
    → (v < 2 ^ 28) × (read ≤ 4)
unfolding decode_varint_loop
decode_varint_loop-bounds k [] m value n v read hb hm hv hn e = ground arith
decode_varint_loop-bounds zero (b ∷ buf) m value n v read hb hm hv hn e =
    ground (arith, low_seven b, top_bit b)
decode_varint_loop-bounds (suc k) (b ∷ buf) m value n v read hb hm hv hn e =
    let low : bit_and b 127 < 128 = omega (arith, low_seven b hb.0) in
    let fits = group_fits (bit_and b 127) m value low hv in
    let more =
      decode_varint_loop-bounds k buf (m * 128) (value + bit_and b 127 * m) (n + 1) v read hb.1 hm.1
        fits (omega arith) in
    ground (arith, low, top_bit b, fits, more)

-- On bytes, the value fits 28 bits and takes one to four bytes of those at hand.
pub decode_varint_bounds :
    (buf : List ℕ) (v read : ℕ)
    → All (λ b. b < 256) buf
    → decode_varint buf ≡ ok (v, read)
    → (v < 2 ^ 28) × (1 ≤ read) × (read ≤ 4) × (read ≤ length buf)
unfolding decode_varint
decode_varint_bounds buf v read hb e =
    let (v_fits, short) =
      decode_varint_loop-bounds 3 buf 1 0 0 v read hb (omega arith) (omega arith) refl e in
    let (some_read, in_buf) = decode_varint-read buf v read e in (v_fits, some_read, short, in_buf)
