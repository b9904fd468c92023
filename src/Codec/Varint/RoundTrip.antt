-- ===== src/Codec/Varint/RoundTrip.antt =====
-- `decode_varint` of src/codec.rs on what `encode_varint` writes.
use pipistrelle.Prelude.{
  ℕ, zero, suc, ◌+◌, ◌*◌, ◌/◌, ◌%◌, ◌^◌, ◌≤◌, ◌<◌, ◌≡◌, arith, List, [], ◌++◌, length,
}
use pipistrelle.Codec.Outcome.{ok, err, invalid_varint}
use pipistrelle.Codec.Varint.{decode_varint_loop, decode_varint, encode_varint}
use native.Mathlib.Nat.{pow-suc, one-le-pow}
use pipistrelle.Codec.Varint.Bytes.{
  groups, Room, encode_varint-groups, encode_varint_short, split_group, last_byte, inner_byte,
  wide_byte, group_fits,
}

decode_varint_loop-groups :
    (k v m value n : ℕ) (rest : List ℕ)
    → v < 128 ^ suc k
    → Room k m
    → value + v * m < 2 ^ 28
    → decode_varint_loop (groups k v ++ rest) m value n
      ≡ ok (value + v * m, n + length (groups k v))
unfolding groups
decode_varint_loop-groups zero v m value n rest hv hm fits = last_byte v m value n rest hv fits
decode_varint_loop-groups (suc k) v m value n rest hv hm fits = ground (
  arith,
  pow-suc 128 (suc k),
  last_byte v m value n rest,
  split_group v m,
  inner_byte (v % 128) m value n (groups k (v / 128) ++ rest),
  decode_varint_loop-groups k (v / 128) (m * 128) (value + v % 128 * m) (n + 1) rest,
)

pub decode_varint-groups :
    (v : ℕ) (rest : List ℕ)
    → v < 2 ^ 28
    → decode_varint (groups 3 v ++ rest) ≡ ok (v, length (groups 3 v))
unfolding decode_varint
decode_varint-groups v rest h = ground (arith, decode_varint_loop-groups 3 v 1 0 0 rest)

-- `decode_varint` reads back a value below 2^28, with the number of bytes written, whatever follows.
pub decode_varint-encode_varint :
    (v : ℕ) (rest : List ℕ)
    → v < 2 ^ 28
    → decode_varint (encode_varint v [] ++ rest) ≡ ok (v, length (encode_varint v []))
decode_varint-encode_varint v rest h =
    rw (encode_varint_short v [] h) (decode_varint-groups v rest h)

-- A value too wide for the bytes that there is room for.
decode_varint_loop-groups_wide :
    (k v m value n : ℕ) (rest : List ℕ)
    → 128 ^ suc k ≤ v
    → Room k m
    → value < m
    → decode_varint_loop (groups (suc k) v ++ rest) m value n ≡ err invalid_varint
unfolding groups
decode_varint_loop-groups_wide zero v m value n rest hv hm fits =
    ground (arith, wide_byte (v % 128) m value n (groups 0 (v / 128) ++ rest))
decode_varint_loop-groups_wide (suc k) v m value n rest hv hm fits = ground (
  arith,
  pow-suc 128 (suc k),
  pow-suc 128 k,
  one-le-pow k 128 (omega arith),
  split_group v m,
  inner_byte (v % 128) m value n (groups (suc k) (v / 128) ++ rest),
  decode_varint_loop-groups_wide k (v / 128) (m * 128) (value + v % 128 * m) (n + 1) rest
      (omega (arith, pow-suc 128 (suc k))) hm.1 (group_fits (v % 128) m value (omega arith) fits),
  group_fits (v % 128) m value,
)

-- From 2^28 on `encode_varint` writes a fifth byte, and `decode_varint` refuses the result.
pub decode_varint-encode_varint_wide :
    (v : ℕ) (rest : List ℕ)
    → 2 ^ 28 ≤ v
    → v < 2 ^ 32
    → decode_varint (encode_varint v [] ++ rest) ≡ err invalid_varint
decode_varint-encode_varint_wide v rest lo hi = rw (encode_varint-groups v [] hi) (
    unfold decode_varint in
    decode_varint_loop-groups_wide 3 v 1 0 0 rest lo (omega arith) (omega arith))
