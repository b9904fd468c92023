-- ===== src/Codec/Write.antt =====
-- The writers of src/codec.rs. Each appends to `buf: &mut Vec<u8>`, and is given by that buffer's
-- content afterwards.
use pipistrelle.Prelude.{ℕ, ◌/◌, ◌%◌, ◌^◌, List, [], ◌∷◌, ◌++◌, length}

-- `to_be_bytes`
abbrev pub be16 : ℕ → List ℕ
be16 v = (v / 2 ^ 8 % 2 ^ 8) ∷ (v % 2 ^ 8) ∷ []

abbrev pub be32 : ℕ → List ℕ
be32 v = (v / 2 ^ 24 % 2 ^ 8) ∷ (v / 2 ^ 16 % 2 ^ 8) ∷ (v / 2 ^ 8 % 2 ^ 8) ∷ (v % 2 ^ 8) ∷ []

unfoldable pub write_u16 : ℕ → List ℕ → List ℕ
write_u16 val buf = buf ++ be16 val

unfoldable pub write_u32 : ℕ → List ℕ → List ℕ
write_u32 val buf = buf ++ be32 val

-- `s.len() as u16` keeps the low 16 bits.
unfoldable pub write_str : List ℕ → List ℕ → List ℕ
unfolding write_u16
write_str s buf = write_u16 (length s % 2 ^ 16) buf ++ s

unfoldable pub write_bytes : List ℕ → List ℕ → List ℕ
unfolding write_u16
write_bytes bytes buf = write_u16 (length bytes % 2 ^ 16) buf ++ bytes

-- `buf.push(val)`
unfoldable pub write_u8 : ℕ → List ℕ → List ℕ
write_u8 val buf = buf ++ val ∷ []
