-- ===== src/Router/Undone.antt =====
-- `unsubscribe` of src/router.rs after `subscribe`.
use mathlib.Core.List.{Perm}
use mathlib.Core.List.Perm
use pipistrelle.Prelude.{
  ℕ, ◌≡◌, refl, ap, ◌∙◌, true, false, List, [], ◌∷◌, ◌++◌, Bool-cases, inl, inr, Option, none,
  arith,
}
use pipistrelle.Prelude.Text.{Str, bytes_eq, bytes_eq_refl, bytes_eq→eq, split_slash}
use pipistrelle.Router.Maps.{HashMap, values, get, remove-insert}
use pipistrelle.Router.Trie.{
  TrieNode, node, Slot, box, Children, SubscriptionInfo, slot_or_default, unsubscribe_slot,
  child_get, child_entry, put_child, add_subscription, subscribe_at, subscribe, remove_subscription,
  unsubscribe_at, unsubscribe, parse_shared_subscription, plus_segment, hash_segment,
}
use pipistrelle.Router.Match.{match_topic}
use pipistrelle.Router.Children.{child_get-child_entry, child_get-child_entry_other, plus-ne-hash}
use pipistrelle.Router.Filter.{hash_last, no_more}
use pipistrelle.Router.Normal.{
  own, from_slot, found, from_slot-found, from_slot-own, subscriptions_of, match_topic-normal,
}
use pipistrelle.Router.Emptied.{
  slot_or_default-unsubscribe_slot, child_get-put_child, child_get-put_child_other,
}
use pipistrelle.Router.Subscribed.{node_at, subscriptions_at}

-- The client has no subscription at the node.
abbrev Absent : SubscriptionInfo → TrieNode → Type 0
Absent info n = get info.client_id (subscriptions_of n) ≡ none

own-undone :
    (info : SubscriptionInfo) (n : TrieNode)
    → Absent info n
    → own (remove_subscription info.client_id none (add_subscription none info n)).0 ≡ own n
unfolding remove_subscription add_subscription
own-undone info (node cs p h subs shared) a = ap values (remove-insert info.client_id info subs a)

hash_undone :
    (info : SubscriptionInfo) (fs : List Str) (h : Slot)
    → no_more fs ≡ true
    → Absent info (slot_or_default h)
    → from_slot own
        (unsubscribe_slot
          (unsubscribe_at fs info.client_id none)
          (box (add_subscription none info (slot_or_default h)))).0
      ≡ from_slot own h
unfolding unsubscribe_at
hash_undone info [] h e a =
    let s = box (add_subscription none info (slot_or_default h)) in
    rw
      (
        from_slot-own (unsubscribe_slot (unsubscribe_at [] info.client_id none) s).0,
        from_slot-own h,
        slot_or_default-unsubscribe_slot [] info.client_id none s,
      )
      (own-undone info (slot_or_default h) a)
hash_undone info (f ∷ fs) h e a = absurd (ground arith)

-- The walk of both operations to the node of `fs`.
abbrev undone : SubscriptionInfo → List Str → TrieNode → TrieNode
undone info fs n =
    (unsubscribe_at fs info.client_id none (subscribe_at fs (add_subscription none info) n)).0

-- A slot in place of the node it stands for.
slot_undone :
    (info : SubscriptionInfo) (fs ts : List Str) (s : Slot)
    → found ts (undone info fs (slot_or_default s)) ≡ found ts (slot_or_default s)
    → from_slot
        (found ts)
        (unsubscribe_slot
          (unsubscribe_at fs info.client_id none)
          (box (subscribe_at fs (add_subscription none info) (slot_or_default s)))).0
      ≡ from_slot (found ts) s
slot_undone info fs ts s same =
    let added = box (subscribe_at fs (add_subscription none info) (slot_or_default s)) in
    rw
      (
        from_slot-found ts (unsubscribe_slot (unsubscribe_at fs info.client_id none) added).0,
        from_slot-found ts s,
        slot_or_default-unsubscribe_slot fs info.client_id none added,
      )
      same

child_undone :
    (info : SubscriptionInfo) (fs ts : List Str) (s t : Str) (cs : Children)
    → (bytes_eq s t ≡ true
        → found ts (undone info fs (slot_or_default (child_get t cs)))
          ≡ found ts (slot_or_default (child_get t cs)))
    → let added = child_entry s (subscribe_at fs (add_subscription none info)) cs in
      from_slot (found ts) (
        child_get t (
          put_child s
            (unsubscribe_slot (unsubscribe_at fs info.client_id none) (child_get s added)).0
            added))
      ≡ from_slot (found ts) (child_get t cs)
child_undone info fs ts s t cs same =
    let g = subscribe_at fs (add_subscription none info) in
    let c =
      (unsubscribe_slot (unsubscribe_at fs info.client_id none)
        (child_get s (child_entry s g cs))).0 in
    elim (Bool-cases (bytes_eq s t)) [
      | inl e ↦
          let back =
            (unsubscribe_slot (unsubscribe_at fs info.client_id none)
              (child_get t (child_entry t g cs))).0 in
          rw
            (
              bytes_eq→eq s t e,
              child_get-put_child t back (child_entry t g cs),
              child_get-child_entry t t g cs (bytes_eq_refl t),
            )
            (slot_undone info fs ts (child_get t cs) (same e))
      | inr e ↦
          rw
            (
              child_get-put_child_other s t c (child_entry s g cs) e,
              child_get-child_entry_other s t g cs e,
            )
            refl
    ]

found-nothing :
    (info : SubscriptionInfo) (ts : List Str) (n : TrieNode)
    → Absent info n
    → found ts (undone info [] n) ≡ found ts n
unfolding subscribe_at unsubscribe_at add_subscription remove_subscription
found-nothing info ts (node cs p h subs shared) a =
    ap (λ m. found ts (node cs p h m shared)) (remove-insert info.client_id info subs a)

module _ (info : SubscriptionInfo) (s : Str) (fs : List Str) (cs : Children) (p h : Slot)
    (subs : HashMap SubscriptionInfo) (shared : HashMap (List SubscriptionInfo)) where
  undone-plus :
      bytes_eq s plus_segment ≡ true
      → undone info (s ∷ fs) (node cs p h subs shared)
        ≡ node cs
            (unsubscribe_slot
              (unsubscribe_at fs info.client_id none)
              (box (subscribe_at fs (add_subscription none info) (slot_or_default p)))).0
            h
            subs
            shared
  unfolding subscribe_at unsubscribe_at
  undone-plus e =
      let added : subscribe_at (s ∷ fs) (add_subscription none info) (node cs p h subs shared)
          ≡ node cs (box (subscribe_at fs (add_subscription none info) (slot_or_default p))) h subs
              shared =
        rw e refl in
      ap (λ n. (unsubscribe_at (s ∷ fs) info.client_id none n).0) added ∙ rw e refl

  undone-hash :
      bytes_eq s plus_segment ≡ false
      → bytes_eq s hash_segment ≡ true
      → undone info (s ∷ fs) (node cs p h subs shared)
        ≡ node cs p
            (unsubscribe_slot
              (unsubscribe_at fs info.client_id none)
              (box (add_subscription none info (slot_or_default h)))).0
            subs
            shared
  unfolding subscribe_at unsubscribe_at
  undone-hash e k =
      let added : subscribe_at (s ∷ fs) (add_subscription none info) (node cs p h subs shared)
          ≡ node cs p (box (add_subscription none info (slot_or_default h))) subs shared =
        rw (e, k) refl in
      ap (λ n. (unsubscribe_at (s ∷ fs) info.client_id none n).0) added ∙ rw (e, k) refl

  undone-literal :
      bytes_eq s plus_segment ≡ false
      → bytes_eq s hash_segment ≡ false
      → let added = child_entry s (subscribe_at fs (add_subscription none info)) cs in
        undone info (s ∷ fs) (node cs p h subs shared)
        ≡ node
            (put_child s
              (unsubscribe_slot (unsubscribe_at fs info.client_id none) (child_get s added)).0
              added)
            p
            h
            subs
            shared
  unfolding subscribe_at unsubscribe_at
  undone-literal e k =
      let added : subscribe_at (s ∷ fs) (add_subscription none info) (node cs p h subs shared)
          ≡ node (child_entry s (subscribe_at fs (add_subscription none info)) cs) p h subs shared =
        rw (e, k) refl in
      ap (λ n. (unsubscribe_at (s ∷ fs) info.client_id none n).0) added ∙ rw (e, k) refl

found-undone :
    (info : SubscriptionInfo) (fs ts : List Str) (n : TrieNode)
    → hash_last fs ≡ true
    → Absent info (node_at fs n)
    → found ts (undone info fs n) ≡ found ts n
unfolding node_at found hash_last
found-undone info [] ts n l a = found-nothing info ts n a
found-undone info (s ∷ fs) [] (node cs p h subs shared) l a =
    elim (Bool-cases (bytes_eq s plus_segment)) [
      | inl e ↦ rw (undone-plus info s fs cs p h subs shared e) refl
      | inr e ↦ elim (Bool-cases (bytes_eq s hash_segment)) [
        | inl k ↦
            rw (undone-hash info s fs cs p h subs shared e k)
              (ap (λ l. l ++ values subs) (hash_undone info fs h (rw k at l) (rw (e, k) at a)))
        | inr k ↦ rw (undone-literal info s fs cs p h subs shared e k) refl
      ]
    ]
found-undone info (s ∷ fs) (t ∷ ts) (node cs p h subs shared) l a =
    let plus = from_slot (found ts) p in
    let child = from_slot (found ts) (child_get t cs) in
    elim (Bool-cases (bytes_eq s plus_segment)) [
      | inl e ↦
          let last : hash_last fs ≡ true = rw (plus-ne-hash s e) at l in
          rw (undone-plus info s fs cs p h subs shared e) (
            ap (λ l. from_slot own h ++ child ++ l)
              (slot_undone info fs ts p
                (found-undone info fs ts (slot_or_default p) last (rw e at a))))
      | inr e ↦ elim (Bool-cases (bytes_eq s hash_segment)) [
        | inl k ↦
            rw (undone-hash info s fs cs p h subs shared e k)
              (ap (λ l. l ++ child ++ plus) (hash_undone info fs h (rw k at l) (rw (e, k) at a)))
        | inr k ↦ rw (undone-literal info s fs cs p h subs shared e k) (
            ap (λ l. from_slot own h ++ l ++ plus)
              (child_undone info fs ts s t cs (λ same.
                found-undone info fs ts (slot_or_default (child_get t cs)) (rw k at l)
                  (rw (bytes_eq→eq s t same) at (rw (e, k) at a)))))
      ]
    ]

normal-undone :
    (client_id topic_filter : Str) (qos : ℕ) (id : Option ℕ) (root : TrieNode) (topic : Str)
    → (parse_shared_subscription topic_filter).0 ≡ none
    → hash_last (split_slash (parse_shared_subscription topic_filter).1) ≡ true
    → get client_id (subscriptions_at (parse_shared_subscription topic_filter).1 root) ≡ none
    → (match_topic topic
        (unsubscribe client_id topic_filter
          (subscribe client_id topic_filter qos id root)).0).normal
      ≡ (match_topic topic root).normal
unfolding subscribe unsubscribe
normal-undone client_id topic_filter qos id root topic normal l a =
    rw
      (
        match_topic-normal topic root,
        match_topic-normal topic
            (unsubscribe client_id topic_filter (subscribe client_id topic_filter qos id root)).0,
        normal,
      )
      (found-undone _ _ (split_slash topic) root l a)

-- A client without a subscription at a filter that is not shared and has no `#` before its end subscribes
-- and unsubscribes: every topic is routed to the normal subscribers that it was routed to before, each as
-- often. The order is left open, since an insertion may rearrange a `HashMap`.
pub match_topic-unsubscribe-subscribe :
    (client_id topic_filter : Str) (qos : ℕ) (id : Option ℕ) (root : TrieNode) (topic : Str)
    → (parse_shared_subscription topic_filter).0 ≡ none
    → hash_last (split_slash (parse_shared_subscription topic_filter).1) ≡ true
    → get client_id (subscriptions_at (parse_shared_subscription topic_filter).1 root) ≡ none
    → Perm
        (match_topic topic
          (unsubscribe client_id topic_filter
            (subscribe client_id topic_filter qos id root)).0).normal
        (match_topic topic root).normal
match_topic-unsubscribe-subscribe client_id topic_filter qos id root topic normal l a =
    rw (normal-undone client_id topic_filter qos id root topic normal l a) Perm.rfl
