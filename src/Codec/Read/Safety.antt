-- ===== src/Codec/Read/Safety.antt =====
-- The readers of src/codec.rs never index out of range, and leave no more than they were given.
use pipistrelle.Prelude.{
  ◌<◌, ℕ, ◌≤◌, ◌≡◌, arith, List, [], ◌∷◌, length, length-drop, false, ◌==◌, leb, inl, inr, ◌%◌, ◌*◌,
  ◌+◌, ◌^◌, bit_and, Bool-cases, ltb, ltb→le, drop, take,
}
use pipistrelle.Codec.Outcome.{panic, Result, ok, ◌>>=◌}
use pipistrelle.Codec.Outcome.Safe.{
  Within, IsSafe, Returns, Within-bind, Within-bind_ok, Within-bind_value, Within-if,
}
use pipistrelle.Codec.Utf8.{is_utf8}
use pipistrelle.Codec.Varint.{decode_varint_loop, decode_varint}
use pipistrelle.Codec.Varint.Bounds.{decode_varint-read}
use pipistrelle.Codec.Read.{
  slice_from, slice_to, read_u8, read_u16, read_u32, from_utf8, read_str, read_bytes, read_varint,
}

pub slice_from_lem : (n : ℕ) (buf : List ℕ) → n ≤ length buf → slice_from n buf ≡ ok (drop n buf)
unfolding slice_from
slice_from_lem n buf h = ground arith

pub slice_from_past : (n : ℕ) (buf : List ℕ) → length buf < n → slice_from n buf ≡ panic
unfolding slice_from
slice_from_past n buf h = ground arith

pub slice_to_lem : (n : ℕ) (buf : List ℕ) → n ≤ length buf → slice_to n buf ≡ ok (take n buf)
unfolding slice_to
slice_to_lem n buf h = ground arith

read_u8-Within : (buf : List ℕ) → Within (length buf) (read_u8 buf)
unfolding read_u8
read_u8-Within [] = tt
read_u8-Within (b ∷ buf) = omega arith

pub read_u16-Within : (buf : List ℕ) → Within (length buf) (read_u16 buf)
unfolding read_u16
read_u16-Within [] = tt
read_u16-Within (a ∷ []) = tt
read_u16-Within (a ∷ b ∷ buf) = omega arith

read_u16-shrinks : (b : ℕ) (bs : List ℕ) → Within (length bs) (read_u16 (b ∷ bs))
unfolding read_u16
read_u16-shrinks b [] = tt
read_u16-shrinks b (c ∷ bs) = omega arith

read_u32-Within : (buf : List ℕ) → Within (length buf) (read_u32 buf)
unfolding read_u32
read_u32-Within [] = tt
read_u32-Within (a ∷ []) = tt
read_u32-Within (a ∷ b ∷ []) = tt
read_u32-Within (a ∷ b ∷ c ∷ []) = tt
read_u32-Within (a ∷ b ∷ c ∷ d ∷ buf) = omega arith

drop-le : (n m : ℕ) (buf : List ℕ) → length buf ≤ m → length (drop n buf) ≤ m
drop-le n m buf h = omega (arith, length-drop n buf)

-- A part of `len` bytes of `rest`, when the test has passed.
module _ {A : Type 0} (n len : ℕ) (rest : List ℕ) (front : List ℕ → Result A) where
  cut-Within :
      length rest ≤ n
      → ltb (length rest) len ≡ false
      → ((s : List ℕ) → Returns (front s))
      → Within n
          (slice_to len rest >>= λ s. front s >>= λ a. slice_from len rest >>= λ r. ok (a, r))
  cut-Within h enough safe =
      let fits = ltb→le (length rest) len enough in
      Within-bind_ok n _ (slice_to_lem len rest fits) (
        Within-bind_value n (front (take len rest)) _ (safe (take len rest))
          (λ a _. Within-bind_ok n _ (slice_from_lem len rest fits) (drop-le len n rest h)))

read_bytes-Within : (buf : List ℕ) → Within (length buf) (read_bytes buf)
unfolding read_bytes
read_bytes-Within buf =
    Within-bind (length buf) (read_u16 buf) _ (read_u16-Within buf) λ len rest h.
      Within-if (length buf) (ltb (length rest) len) _ _ (λ _. tt)
        (λ enough.
          let fits = ltb→le (length rest) len enough in
          Within-bind_ok (length buf) _ (slice_to_lem len rest fits) (
            Within-bind_ok (length buf) _ (slice_from_lem len rest fits)
              (drop-le len (length buf) rest h)))

from_utf8-Returns : (s : List ℕ) → Returns (from_utf8 s)
unfolding from_utf8
from_utf8-Returns s = elim (Bool-cases (is_utf8 s)) [ inl e ↦ rw e tt | inr e ↦ rw e tt ]

read_str-Within : (buf : List ℕ) → Within (length buf) (read_str buf)
unfolding read_str
read_str-Within buf = Within-bind (length buf) (read_u16 buf) _ (read_u16-Within buf) λ len rest h.
    Within-if (length buf) (ltb (length rest) len) _ _ (λ _. tt)
      (λ enough. cut-Within (length buf) len rest from_utf8 h enough from_utf8-Returns)

decode_varint_loop-Returns :
    (buf : List ℕ) (m value n : ℕ) → Returns (decode_varint_loop buf m value n)
unfolding decode_varint_loop
decode_varint_loop-Returns [] m value n = tt
decode_varint_loop-Returns (b ∷ buf) m value n =
    let value' = (value + bit_and b 127 * m % 2 ^ 32) % 2 ^ 32 in
    let rest = decode_varint_loop-Returns buf (m * 128 % 2 ^ 32) value' (n + 1) in
    elim (Bool-cases (bit_and b 128 == 0)) [
      | inl last ↦ rw last tt
      | inr more ↦
          rw more
            (elim (Bool-cases (leb (128 * 128 * 128) m)) [ inl e ↦ rw e tt | inr e ↦ rw e rest ])
    ]

pub decode_varint-Returns : (buf : List ℕ) → Returns (decode_varint buf)
unfolding decode_varint
decode_varint-Returns buf = decode_varint_loop-Returns buf 1 0 0

read_varint-Within : (buf : List ℕ) → Within (length buf) (read_varint buf)
unfolding read_varint
read_varint-Within buf =
    Within-bind_value (length buf) (decode_varint buf) _ (decode_varint-Returns buf)
      λ (val, read) e.
        Within-bind_ok (length buf) _
          (slice_from_lem read buf (decode_varint-read buf val read e).1)
          (drop-le read (length buf) buf (omega arith))

pub read_u8-IsSafe : IsSafe read_u8
read_u8-IsSafe = record { at = read_u8-Within }

pub read_u16-IsSafe : IsSafe read_u16
read_u16-IsSafe = record { at = read_u16-Within }

pub read_u32-IsSafe : IsSafe read_u32
read_u32-IsSafe = record { at = read_u32-Within }

pub read_str-IsSafe : IsSafe read_str
read_str-IsSafe = record { at = read_str-Within }

pub read_bytes-IsSafe : IsSafe read_bytes
read_bytes-IsSafe = record { at = read_bytes-Within }

pub read_varint-IsSafe : IsSafe read_varint
read_varint-IsSafe = record { at = read_varint-Within }

-- A string takes a byte at least.
pub read_str-shrinks : (b : ℕ) (bs : List ℕ) → Within (length bs) (read_str (b ∷ bs))
unfolding read_str
read_str-shrinks b bs =
    Within-bind (length bs) (read_u16 (b ∷ bs)) _ (read_u16-shrinks b bs) λ len rest h.
      Within-if (length bs) (ltb (length rest) len) _ _ (λ _. tt)
        (λ enough. cut-Within (length bs) len rest from_utf8 h enough from_utf8-Returns)
