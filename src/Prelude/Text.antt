-- ===== src/Prelude/Text.antt =====
-- Strings as lists of bytes: `==`, `split('/')`, `splitn` and `starts_with` of the standard library.
use Prim.Native.Nat.{ℕ, zero, suc}
use mathlib.Core.Path.{◌≡◌, refl}
use mathlib.Core.Bool.{Bool, true, false, ◌&&◌}
use mathlib.Core.List.{List, [], ◌∷◌}
use native.Mathlib.Omega.{arith}
use pipistrelle.Prelude.Tests.{◌==◌, if◌then◌else◌}

abbrev pub Str : Type 0
Str = List ℕ

abbrev pub bytes_eq : Str → Str → Bool
bytes_eq [] [] = true
bytes_eq (a ∷ s) (b ∷ t) = a == b && bytes_eq s t
bytes_eq _ _ = false

pub bytes_eq→eq : (s t : Str) → bytes_eq s t ≡ true → s ≡ t
bytes_eq→eq [] [] h = refl
bytes_eq→eq [] (b ∷ t) h = ground arith
bytes_eq→eq (a ∷ s) [] h = ground arith
bytes_eq→eq (a ∷ s) (b ∷ t) h = ground (arith, bytes_eq→eq s t)

pub bytes_eq_refl : (s : Str) → bytes_eq s s ≡ true
bytes_eq_refl [] = refl
bytes_eq_refl (a ∷ s) = ground (arith, bytes_eq_refl s)

-- A byte before the first piece.
abbrev pub cons_head : ℕ → List Str → List Str
cons_head b [] = (b ∷ []) ∷ []
cons_head b (s ∷ ss) = (b ∷ s) ∷ ss

-- `s.split('/')`
unfoldable pub split_slash : Str → List Str
split_slash [] = [] ∷ []
split_slash (b ∷ s) = let rest = split_slash s in if b == b'/' then [] ∷ rest else cons_head b rest

-- `s.splitn(k + 1, '/')`: at most `k` cuts.
unfoldable pub split_cuts : ℕ → Str → List Str
split_cuts zero s = s ∷ []
split_cuts (suc k) [] = [] ∷ []
split_cuts (suc k) (b ∷ s) =
    let cut = split_cuts k s in
    let longer = split_cuts (suc k) s in if b == b'/' then [] ∷ cut else cons_head b longer

unfoldable pub starts_with : Str → Str → Bool
starts_with s [] = true
starts_with [] (p ∷ ps) = false
starts_with (b ∷ s) (p ∷ ps) = b == p && starts_with s ps
