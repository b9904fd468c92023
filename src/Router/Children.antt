-- ===== src/Router/Children.antt =====
-- A node's children in src/router.rs, found by their segment.
use pipistrelle.Prelude.{◌≡◌, refl, sym, true, false, Bool-cases, inl, inr}
use pipistrelle.Prelude.Text.{Str, bytes_eq, bytes_eq→eq}
use pipistrelle.Router.Trie.{
  TrieNode, Children, nil, cons, box, slot_or_default, child_get, child_entry, plus_segment,
  hash_segment,
}

pub other_key : (j k t : Str) → bytes_eq j k ≡ true → bytes_eq k t ≡ false → bytes_eq j t ≡ false
other_key j k t e h = rw (bytes_eq→eq j k e) h

pub same_key : (j k t : Str) → bytes_eq j k ≡ true → bytes_eq k t ≡ true → bytes_eq j t ≡ true
same_key j k t e h = rw (bytes_eq→eq j k e) h

pub unlike_key : (j k t : Str) → bytes_eq j k ≡ false → bytes_eq k t ≡ true → bytes_eq j t ≡ false
unlike_key j k t e h = rw (sym (bytes_eq→eq k t h)) e

-- A child that is updated without a change for `ts` is found as before.
pub child_get-child_entry_other :
    (k t : Str) (g : TrieNode → TrieNode) (cs : Children)
    → bytes_eq k t ≡ false
    → child_get t (child_entry k g cs) ≡ child_get t cs
unfolding child_get child_entry
child_get-child_entry_other k t g nil h = rw h refl
child_get-child_entry_other k t g (cons j n cs) h = elim (Bool-cases (bytes_eq j k)) [
  | inl e ↦ rw e (rw (other_key j k t e h) refl)
  | inr e ↦ rw e (rw (child_get-child_entry_other k t g cs h) refl)
]

-- A child that is updated is found, updated.
pub child_get-child_entry :
    (k t : Str) (g : TrieNode → TrieNode) (cs : Children)
    → bytes_eq k t ≡ true
    → child_get t (child_entry k g cs) ≡ box (g (slot_or_default (child_get t cs)))
unfolding child_get child_entry
child_get-child_entry k t g nil h = rw h refl
child_get-child_entry k t g (cons j n cs) h = elim (Bool-cases (bytes_eq j k)) [
  | inl e ↦ rw e (rw (same_key j k t e h) refl)
  | inr e ↦ rw e (rw (unlike_key j k t e h) (rw (child_get-child_entry k t g cs h) refl))
]

pub plus-ne-hash : (s : Str) → bytes_eq s plus_segment ≡ true → bytes_eq s hash_segment ≡ false
plus-ne-hash s e = rw (bytes_eq→eq s plus_segment e) refl

pub hash-ne-plus : (s : Str) → bytes_eq s hash_segment ≡ true → bytes_eq s plus_segment ≡ false
hash-ne-plus s e = rw (bytes_eq→eq s hash_segment e) refl
