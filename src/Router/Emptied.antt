-- ===== src/Router/Emptied.antt =====
-- The nodes that `unsubscribe` of src/router.rs drops when they are empty, and those it leaves.
use pipistrelle.Prelude.Text.{bytes_eq_refl, Str, bytes_eq}
use pipistrelle.Prelude.{
  ◌≡◌, refl, sym, Bool, true, false, List, [], ◌∷◌, Bool-cases, inl, inr, Option, none, some, arith,
}
use pipistrelle.Router.Maps.{remove, get}
use pipistrelle.Router.Trie.{
  TrieNode, node, default_node, Children, nil, cons, Slot, vacant, box, slot_or_default, is_empty,
  pruned, unsubscribe_slot, child_get, child_remove, put_child, remove_subscription, unsubscribe_at,
  plus_segment, hash_segment,
}
use pipistrelle.Router.Children.{child_get-child_entry, child_get-child_entry_other, other_key}

is_empty-eq : (n : TrieNode) → is_empty n ≡ true → n ≡ default_node
unfolding is_empty
is_empty-eq (node nil vacant vacant [] []) e = refl
is_empty-eq (node nil vacant vacant [] (s ∷ ss)) e = absurd (ground arith)
is_empty-eq (node nil vacant vacant (s ∷ ss) shared) e = absurd (ground arith)
is_empty-eq (node nil vacant (box h) subs shared) e = absurd (ground arith)
is_empty-eq (node nil (box p) h subs shared) e = absurd (ground arith)
is_empty-eq (node (cons k c cs) p h subs shared) e = absurd (ground arith)

-- Dropping an empty node is no loss: the slot stands for the same node.
pub slot_or_default-pruned : (n : TrieNode) (b : Bool) → slot_or_default (pruned (n, b)).0 ≡ n
slot_or_default-pruned n b = elim (Bool-cases (is_empty n)) [
  | inl e ↦ rw e (sym (is_empty-eq n e))
  | inr e ↦ rw e refl
]

-- A new node has nothing to remove.
pub unsubscribe_at-default :
    (fs : List Str) (client_id : Str) (group : Option Str)
    → (unsubscribe_at fs client_id group default_node).0 ≡ default_node
unfolding unsubscribe_at unsubscribe_slot remove_subscription child_get child_remove remove get
unsubscribe_at-default [] client_id none = refl
unsubscribe_at-default [] client_id (some group) = refl
unsubscribe_at-default (s ∷ fs) client_id group = elim (Bool-cases (bytes_eq s plus_segment)) [
  | inl e ↦ rw e refl
  | inr e ↦ elim (Bool-cases (bytes_eq s hash_segment)) [
    | inl k ↦ rw (e, k) refl
    | inr k ↦ rw (e, k) refl
  ]
]

pub slot_or_default-unsubscribe_slot :
    (fs : List Str) (client_id : Str) (group : Option Str) (s : Slot)
    → slot_or_default (unsubscribe_slot (unsubscribe_at fs client_id group) s).0
      ≡ (unsubscribe_at fs client_id group (slot_or_default s)).0
unfolding unsubscribe_slot
slot_or_default-unsubscribe_slot fs client_id group vacant =
    sym (unsubscribe_at-default fs client_id group)
slot_or_default-unsubscribe_slot fs client_id group (box n) =
    let below = unsubscribe_at fs client_id group n in slot_or_default-pruned below.0 below.1

child_get-child_remove : (k : Str) (cs : Children) → child_get k (child_remove k cs) ≡ vacant
unfolding child_get child_remove
child_get-child_remove k nil = refl
child_get-child_remove k (cons j n cs) = elim (Bool-cases (bytes_eq j k)) [
  | inl e ↦ rw e (child_get-child_remove k cs)
  | inr e ↦ rw e (rw e (child_get-child_remove k cs))
]

child_get-child_remove_other :
    (k t : Str) (cs : Children)
    → bytes_eq k t ≡ false
    → child_get t (child_remove k cs) ≡ child_get t cs
unfolding child_get child_remove
child_get-child_remove_other k t nil h = refl
child_get-child_remove_other k t (cons j n cs) h = elim (Bool-cases (bytes_eq j k)) [
  | inl e ↦ rw (e, other_key j k t e h) (child_get-child_remove_other k t cs h)
  | inr e ↦ rw (e, child_get-child_remove_other k t cs h) refl
]

pub child_get-put_child : (k : Str) (c : Slot) (cs : Children) → child_get k (put_child k c cs) ≡ c
child_get-put_child k vacant cs = child_get-child_remove k cs
child_get-put_child k (box n) cs = child_get-child_entry k k (λ _. n) cs (bytes_eq_refl k)

pub child_get-put_child_other :
    (k t : Str) (c : Slot) (cs : Children)
    → bytes_eq k t ≡ false
    → child_get t (put_child k c cs) ≡ child_get t cs
child_get-put_child_other k t vacant cs h = child_get-child_remove_other k t cs h
child_get-put_child_other k t (box n) cs h = child_get-child_entry_other k t (λ _. n) cs h
