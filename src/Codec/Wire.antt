-- ===== src/Codec/Wire.antt =====
-- The formats of a property's value: a reader and a writer of src/codec.rs that belong together.
use pipistrelle.Prelude.{
  ℕ, ◌^◌, ◌<◌, ◌≡◌, refl, arith, List, [], ◌∷◌, ◌++◌, append_assoc, length, length-append, true,
  false, Option, none, some, OnSome, ltb, take-append, drop-append,
}
use pipistrelle.Codec.Outcome.{Reader, ok, bind_ok}
use pipistrelle.Codec.Utf8.{is_utf8}
use pipistrelle.Codec.Read.{
  read_u8, read_u16, read_u32, read_str, read_bytes, read_varint, slice_from, slice_to, from_utf8,
}
use pipistrelle.Codec.Varint.{encode_varint}
use pipistrelle.Codec.Varint.Bytes.{groups, encode_varint_short}
use pipistrelle.Codec.Varint.RoundTrip.{decode_varint-groups}
use native.Mathlib.Nat.{mod-eq_of_lt}
use pipistrelle.Codec.Write.{be16, be32, write_u8, write_u16, write_u32, write_str, write_bytes}

-- `Valid` says which values the format can carry.
pub record Wire (A : Type 0) : Type 1 where
  pub Valid : A → Type 0
  pub read : Reader A
  pub write : A → List ℕ → List ℕ
  pub bytes : A → List ℕ
  pub write_lem : (a : A) (buf : List ℕ) → Valid a → write a buf ≡ buf ++ bytes a
  pub read-bytes : (a : A) (rest : List ℕ) → Valid a → read (bytes a ++ rest) ≡ ok (a, rest)

abbrev pub IsU16 : ℕ → Type 0
IsU16 v = v < 2 ^ 16

abbrev pub IsU32 : ℕ → Type 0
IsU32 v = v < 2 ^ 32

abbrev pub IsVarint : ℕ → Type 0
IsVarint v = v < 2 ^ 28

-- A byte string that a two-byte length can announce; a `&str` is well-formed besides.
abbrev pub IsShort : List ℕ → Type 0
IsShort s = length s < 2 ^ 16

abbrev pub IsStr : List ℕ → Type 0
IsStr s = (is_utf8 s ≡ true) × IsShort s

-- Slicing behind a part of known length.
pub slice_to-append : (s rest : List ℕ) → slice_to (length s) (s ++ rest) ≡ ok s
unfolding slice_to
slice_to-append s rest = ground (arith, length-append s rest, take-append s rest)

pub slice_from-append : (s rest : List ℕ) → slice_from (length s) (s ++ rest) ≡ ok rest
unfolding slice_from
slice_from-append s rest = ground (arith, length-append s rest, drop-append s rest)

pub read_u16-be16 : (v : ℕ) (rest : List ℕ) → IsU16 v → read_u16 (be16 v ++ rest) ≡ ok (v, rest)
unfolding read_u16
read_u16-be16 v rest h = ground arith

pub read_u32-be32 : (v : ℕ) (rest : List ℕ) → IsU32 v → read_u32 (be32 v ++ rest) ≡ ok (v, rest)
unfolding read_u32
read_u32-be32 v rest h = ground arith

-- A length and that many bytes.
abbrev pub prefixed : List ℕ → List ℕ
prefixed s = be16 (length s) ++ s

pub not_short : (s rest : List ℕ) → ltb (length (s ++ rest)) (length s) ≡ false
not_short s rest = ground (arith, length-append s rest)

pub read_bytes-prefixed :
    (s rest : List ℕ) → IsShort s → read_bytes (prefixed s ++ rest) ≡ ok (s, rest)
unfolding read_bytes
read_bytes-prefixed s rest h = bind_ok _ (read_u16-be16 (length s) (s ++ rest) h) (
    rw (not_short s rest)
      (bind_ok _ (slice_to-append s rest) (bind_ok _ (slice_from-append s rest) refl)))

from_utf8_lem : (s : List ℕ) → is_utf8 s ≡ true → from_utf8 s ≡ ok s
unfolding from_utf8
from_utf8_lem s h = rw h

pub read_str-prefixed : (s rest : List ℕ) → IsStr s → read_str (prefixed s ++ rest) ≡ ok (s, rest)
unfolding read_str
read_str-prefixed s rest (valid, h) = bind_ok _ (read_u16-be16 (length s) (s ++ rest) h) (
    rw (not_short s rest) (
      bind_ok _ (slice_to-append s rest)
        (bind_ok _ (from_utf8_lem s valid) (bind_ok _ (slice_from-append s rest) refl))))

pub read_varint-groups :
    (v : ℕ) (rest : List ℕ) → IsVarint v → read_varint (groups 3 v ++ rest) ≡ ok (v, rest)
unfolding read_varint
read_varint-groups v rest h =
    bind_ok _ (decode_varint-groups v rest h) (bind_ok _ (slice_from-append (groups 3 v) rest) refl)

pub write_bytes_lem : (s buf : List ℕ) → IsShort s → write_bytes s buf ≡ buf ++ prefixed s
unfolding write_bytes
write_bytes_lem s buf h = rw (mod-eq_of_lt h) (append_assoc buf (be16 (length s)) s)

pub write_str_lem : (s buf : List ℕ) → IsShort s → write_str s buf ≡ buf ++ prefixed s
unfolding write_str
write_str_lem s buf h = rw (mod-eq_of_lt h) (append_assoc buf (be16 (length s)) s)

pub write_u8_lem : (v : ℕ) (buf : List ℕ) → write_u8 v buf ≡ buf ++ v ∷ []
unfolding write_u8
write_u8_lem v buf = refl

pub read_u8_lem : (v : ℕ) (rest : List ℕ) → read_u8 (v ∷ rest) ≡ ok (v, rest)
unfolding read_u8
read_u8_lem v rest = refl

pub write_u16_lem : (v : ℕ) (buf : List ℕ) → write_u16 v buf ≡ buf ++ be16 v
unfolding write_u16
write_u16_lem v buf = refl

pub write_u32_lem : (v : ℕ) (buf : List ℕ) → write_u32 v buf ≡ buf ++ be32 v
unfolding write_u32
write_u32_lem v buf = refl

abbrev pub u8 : Wire ℕ
u8 = record {
  Valid = λ v. Unit;
  read = read_u8;
  write = write_u8;
  bytes = λ v. v ∷ [];
  write_lem = λ v buf h. write_u8_lem v buf;
  read-bytes = λ v rest h. read_u8_lem v rest;
}

abbrev pub u16 : Wire ℕ
u16 = record {
  Valid = IsU16;
  read = read_u16;
  write = write_u16;
  bytes = be16;
  write_lem = λ v buf h. write_u16_lem v buf;
  read-bytes = read_u16-be16;
}

abbrev pub u32 : Wire ℕ
u32 = record {
  Valid = IsU32;
  read = read_u32;
  write = write_u32;
  bytes = be32;
  write_lem = λ v buf h. write_u32_lem v buf;
  read-bytes = read_u32-be32;
}

abbrev pub str : Wire (List ℕ)
str = record {
  Valid = IsStr;
  read = read_str;
  write = write_str;
  bytes = prefixed;
  write_lem = λ s buf h. write_str_lem s buf h.1;
  read-bytes = read_str-prefixed;
}

abbrev pub binary : Wire (List ℕ)
binary = record {
  Valid = IsShort;
  read = read_bytes;
  write = write_bytes;
  bytes = prefixed;
  write_lem = write_bytes_lem;
  read-bytes = read_bytes-prefixed;
}

abbrev pub varint : Wire ℕ
varint = record {
  Valid = IsVarint;
  read = read_varint;
  write = encode_varint;
  bytes = groups 3;
  write_lem = encode_varint_short;
  read-bytes = read_varint-groups;
}

-- Every `u8` is valid.
pub any_byte : (o : Option ℕ) → OnSome u8.Valid o
any_byte none = tt
any_byte (some v) = tt
