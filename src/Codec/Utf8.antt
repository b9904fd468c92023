-- ===== src/Codec/Utf8.antt =====
-- `std::str::from_utf8`, which `read_str` of src/codec.rs calls: well-formed byte sequences as the
-- Unicode standard defines them. A `&str` is the list of its bytes.
use pipistrelle.Prelude.{
  ℕ, zero, suc, Bool, false, ◌&&◌, Option, none, some, List, [], ◌∷◌, ltb, leb, ◌==◌, if◌then◌else◌,
}

-- What the next byte must be: `more` bytes of a character are still to come, and the next of them
-- lies in `lo ..= hi`. At `more = 0` a character begins.
pub record Expect : Type 0 where
  pub more : ℕ
  pub lo : ℕ
  pub hi : ℕ

abbrev pub begin : Expect
begin = record { more = 0; lo = 0; hi = 255 }

abbrev tails : ℕ → ℕ → ℕ → Option Expect
tails n lo hi = some (record { more = n; lo = lo; hi = hi })

unfoldable pub lead : ℕ → Option Expect
lead b =
    if ltb b 0x80
    then some begin
    else if ltb b 0xc2
    then none
    else if ltb b 0xe0
    then tails 1 0x80 0xbf
    else if b == 0xe0
    then tails 2 0xa0 0xbf
    else if b == 0xed
    then tails 2 0x80 0x9f
    else if ltb b 0xf0
    then tails 2 0x80 0xbf
    else if b == 0xf0
    then tails 3 0x90 0xbf
    else if ltb b 0xf4
    then tails 3 0x80 0xbf
    else if b == 0xf4
    then tails 3 0x80 0x8f
    else none

unfoldable pub follow : ℕ → ℕ → ℕ → ℕ → Option Expect
follow n lo hi b =
    if leb lo b && leb b hi then (if n == 0 then some begin else tails n 0x80 0xbf) else none

unfoldable pub expect_byte : Expect → ℕ → Option Expect
unfolding lead follow
expect_byte e b = elim e.more [ zero ↦ lead b | suc n ↦ follow n e.lo e.hi b ]

unfoldable pub utf8_from : Expect → List ℕ → Bool
unfolding expect_byte
utf8_from e [] = e.more == 0
utf8_from e (b ∷ bs) = elim (expect_byte e b) [ none ↦ false | some e' ↦ utf8_from e' bs ]

unfoldable pub is_utf8 : List ℕ → Bool
unfolding utf8_from
is_utf8 s = utf8_from begin s
