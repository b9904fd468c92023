-- ===== src/Codec/RoundTrip/Pieces.antt =====
-- The pieces of a payload: optional values, and what each writer of src/codec.rs adds in length.
use pipistrelle.Prelude.{
  ◌∷◌, ℕ, ◌≤◌, ◌%◌, ◌^◌, ◌≡◌, refl, arith, List, [], ◌++◌, append-nil, length, length-append,
  Option, none, some, OnSome,
}
use pipistrelle.Codec.Outcome.{ok, bind_ok}
use pipistrelle.Codec.Wire.{Wire}
use pipistrelle.Codec.Decode.{read_if}
use pipistrelle.Codec.Encode.{is_some, write_if}
use pipistrelle.Codec.Write.{be16, write_u8, write_u16, write_str, write_bytes}

module _ {A : Type 0} (w : Wire A) where
  abbrev pub bytes_if : Option A → List ℕ
  bytes_if none = []
  bytes_if (some a) = w.bytes a

  pub write_if_lem :
      (o : Option A) (buf : List ℕ) → OnSome w.Valid o → write_if w.write o buf ≡ buf ++ bytes_if o
  write_if_lem none buf h = rw append-nil
  write_if_lem (some a) buf h = w.write_lem a buf h

  pub read_if-bytes_if :
      (o : Option A) (rest : List ℕ)
      → OnSome w.Valid o
      → read_if (is_some o) w.read (bytes_if o ++ rest) ≡ ok (o, rest)
  unfolding read_if
  read_if-bytes_if none rest h = refl
  read_if-bytes_if (some a) rest h = bind_ok _ (w.read-bytes a rest h) refl

pub length-write_u16 : (v : ℕ) (buf : List ℕ) → length buf ≤ length (write_u16 v buf)
unfolding write_u16
length-write_u16 v buf = omega (arith, length-append buf (be16 v))

pub length-write_str : (s buf : List ℕ) → length buf ≤ length (write_str s buf)
unfolding write_str
length-write_str s buf =
    let n : ℕ = length s % 2 ^ 16 in
    omega (arith, length-append (buf ++ be16 n) s, length-append buf (be16 n))

pub length-write_bytes : (s buf : List ℕ) → length buf ≤ length (write_bytes s buf)
unfolding write_bytes
length-write_bytes s buf =
    let n : ℕ = length s % 2 ^ 16 in
    omega (arith, length-append (buf ++ be16 n) s, length-append buf (be16 n))

pub length-write_if_str :
    (o : Option (List ℕ)) (buf : List ℕ) → length buf ≤ length (write_if write_str o buf)
length-write_if_str none buf = omega arith
length-write_if_str (some s) buf = length-write_str s buf

pub length-write_if_bytes :
    (o : Option (List ℕ)) (buf : List ℕ) → length buf ≤ length (write_if write_bytes o buf)
length-write_if_bytes none buf = omega arith
length-write_if_bytes (some s) buf = length-write_bytes s buf

pub length-write_u8 : (v : ℕ) (buf : List ℕ) → length buf ≤ length (write_u8 v buf)
unfolding write_u8
length-write_u8 v buf = omega (arith, length-append buf (v ∷ []))
