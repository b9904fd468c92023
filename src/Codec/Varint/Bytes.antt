-- ===== src/Codec/Varint/Bytes.antt =====
-- What `encode_varint` of src/codec.rs writes and `decode_varint` reads, in plain arithmetic.
use pipistrelle.Prelude.{
  ℕ, zero, suc, ◌+◌, ◌*◌, ◌/◌, ◌%◌, ◌^◌, ◌≤◌, ◌<◌, ◌≡◌, ap, arith, List, [], ◌∷◌, ◌++◌,
  append_assoc, length, ◌==◌, if◌then◌else◌,
}
use pipistrelle.Prelude.Bits.{low_seven, top_bit, set_top_bit}
use pipistrelle.Prelude.Order.{lt_wf}
use pipistrelle.Codec.Outcome.{ok, err, invalid_varint}
use pipistrelle.Codec.Varint.{decode_varint_loop, encode_varint_loop, encode_varint}
use mathlib.Core.WellFounded.{Acc}
use native.Mathlib.Nat.{div-add-mod}

-- With `k` bytes to come after this one, the multiplier `m` is `128 ^ (3 - k)`.
abbrev pub Room : ℕ → ℕ → Type 0
Room zero m = m ≡ 128 ^ 3
Room (suc k) m = (m * 128 ≤ 128 ^ 3) × Room k (m * 128)

-- The groups of `v`, at most `k + 1` of them.
unfoldable pub groups : ℕ → ℕ → List ℕ
groups zero v = v ∷ []
groups (suc k) v =
    let more = groups k (v / 128) in if v / 128 == 0 then v ∷ [] else (v % 128 + 128) ∷ more

encode_varint_loop-groups :
    (k v : ℕ) (w : Acc ◌<◌ v) (buf : List ℕ)
    → v < 128 ^ suc k
    → encode_varint_loop v w buf ≡ buf ++ groups k v
unfolding encode_varint_loop groups
encode_varint_loop-groups zero v (Acc.intro _ smaller) buf h = ground arith
encode_varint_loop-groups (suc k) v (Acc.intro _ smaller) buf h =
    let group : List ℕ = (v % 128 + 128) ∷ [] in
    grind (
      arith,
      set_top_bit (v % 128),
      λ (w : Acc ◌<◌ (v / 128)).
          encode_varint_loop-groups k (v / 128) w (buf ++ group) (omega arith),
      append_assoc buf group (groups k (v / 128)),
    )

-- Every `u32` is written as at most five groups behind what the buffer holds.
pub encode_varint-groups :
    (v : ℕ) (buf : List ℕ) → v < 2 ^ 32 → encode_varint v buf ≡ buf ++ groups 4 v
unfolding encode_varint
encode_varint-groups v buf h = encode_varint_loop-groups 4 v (lt_wf.apply v) buf (omega arith)

pub encode_varint_short :
    (v : ℕ) (buf : List ℕ) → v < 2 ^ 28 → encode_varint v buf ≡ buf ++ groups 3 v
unfolding encode_varint
encode_varint_short v buf h = encode_varint_loop-groups 3 v (lt_wf.apply v) buf (omega arith)

pub length-groups : (k v : ℕ) → (1 ≤ length (groups k v)) × (length (groups k v) ≤ k + 1)
unfolding groups
length-groups zero v = omega arith
length-groups (suc k) v = ground (arith, length-groups k (v / 128))

pub split_group : (v m : ℕ) → v * m ≡ v % 128 * m + v / 128 * (m * 128)
split_group v m = omega (arith, ap (λ (t : ℕ). t * m) (div-add-mod v 128))

pub last_byte :
    (v m value n : ℕ) (rest : List ℕ)
    → v < 128
    → value + v * m < 2 ^ 28
    → decode_varint_loop (v ∷ rest) m value n ≡ ok (value + v * m, n + 1)
unfolding decode_varint_loop
last_byte v m value n rest h fits = ground (arith, low_seven v, top_bit v)

pub inner_byte :
    (g m value n : ℕ) (rest : List ℕ)
    → g < 128
    → m < 128 ^ 3
    → value + g * m < 2 ^ 28
    → decode_varint_loop ((g + 128) ∷ rest) m value n
      ≡ decode_varint_loop rest (m * 128) (value + g * m) (n + 1)
unfolding decode_varint_loop
inner_byte g m value n rest h hm fits = ground (arith, low_seven (g + 128), top_bit (g + 128))

-- A fourth byte that asks for a fifth is refused.
pub wide_byte :
    (g m value n : ℕ) (rest : List ℕ)
    → g < 128
    → 128 ^ 3 ≤ m
    → decode_varint_loop ((g + 128) ∷ rest) m value n ≡ err invalid_varint
unfolding decode_varint_loop
wide_byte g m value n rest h hm = ground (arith, top_bit (g + 128))

-- The groups read so far stay below the multiplier.
pub group_fits : (g m value : ℕ) → g < 128 → value < m → value + g * m < m * 128
group_fits g m value hg hv = grind arith
