-- ===== src/Router/Shared.antt =====
-- The shared groups that `match_topic` of src/router.rs finds, and `unsubscribe` from a filter that is
-- not shared.
use pipistrelle.Prelude.{◌≡◌, refl, sym, ap, ◌∙◌, List, [], ◌∷◌, Bool-cases, inl, inr, none}
use pipistrelle.Prelude.Text.{Str, bytes_eq, bytes_eq→eq, split_slash}
use pipistrelle.Router.Maps.{HashMap}
use pipistrelle.Router.Trie.{
  TrieNode, node, Slot, vacant, box, default_node, slot_or_default, SubscriptionInfo, Children,
  child_get, put_child, unsubscribe_slot, remove_subscription, unsubscribe_at, unsubscribe,
  parse_shared_subscription, plus_segment, hash_segment,
}
use pipistrelle.Router.Match.{
  RouteResult, in_slot, match_at, collect_node_subscriptions, collect_shared, match_topic, no_route,
}
use pipistrelle.Router.Emptied.{
  slot_or_default-unsubscribe_slot, child_get-put_child, child_get-put_child_other,
}

abbrev Groups : Type 0
Groups = HashMap (List SubscriptionInfo)

abbrev shared_of : TrieNode → Groups
shared_of (node cs p h subs shared) = shared

abbrev own_shared : TrieNode → Groups → Groups
own_shared n target = collect_shared (shared_of n) target

abbrev through : (TrieNode → Groups → Groups) → Slot → Groups → Groups
through f vacant target = target
through f (box n) target = f n target

-- The walk of `match_at`, for the groups alone.
unfoldable shared_at : List Str → TrieNode → Groups → Groups
shared_at [] (node cs p h subs shared) target = collect_shared shared (through own_shared h target)
shared_at (t ∷ ts) (node cs p h subs shared) target =
    through (shared_at ts) p (through (shared_at ts) (child_get t cs) (through own_shared h target))

in_slot-shared :
    (f : TrieNode → RouteResult → RouteResult) (g : TrieNode → Groups → Groups)
    → ((n : TrieNode) (r : RouteResult) → (f n r).shared ≡ g n r.shared)
    → (s : Slot) (r : RouteResult) → (in_slot f s r).shared ≡ through g s r.shared
in_slot-shared f g e vacant r = refl
in_slot-shared f g e (box n) r = e n r

collect-shared :
    (n : TrieNode) (r : RouteResult)
    → (collect_node_subscriptions n r).shared ≡ own_shared n r.shared
unfolding collect_node_subscriptions
collect-shared (node cs p h subs shared) r = refl

match_at-shared :
    (ts : List Str) (n : TrieNode) (r : RouteResult)
    → (match_at ts n r).shared ≡ shared_at ts n r.shared
unfolding match_at shared_at
match_at-shared [] (node cs p h subs shared) r =
    collect-shared (node cs p h subs shared) (in_slot collect_node_subscriptions h r)
    ∙ ap (collect_shared shared)
        (in_slot-shared collect_node_subscriptions own_shared collect-shared h r)
match_at-shared (t ∷ ts) (node cs p h subs shared) r =
    let deep = match_at-shared ts in
    let r₁ = in_slot collect_node_subscriptions h r in
    let r₂ = in_slot (match_at ts) (child_get t cs) r₁ in
    rw
      (
        in_slot-shared (match_at ts) (shared_at ts) deep p r₂,
        in_slot-shared (match_at ts) (shared_at ts) deep (child_get t cs) r₁,
        in_slot-shared collect_node_subscriptions own_shared collect-shared h r,
      )
      refl

shared_at-default : (ts : List Str) (target : Groups) → shared_at ts default_node target ≡ target
unfolding shared_at collect_shared child_get
shared_at-default [] target = refl
shared_at-default (t ∷ ts) target = refl

through-shared_at :
    (ts : List Str) (s : Slot) (target : Groups)
    → through (shared_at ts) s target ≡ shared_at ts (slot_or_default s) target
through-shared_at ts vacant target = sym (shared_at-default ts target)
through-shared_at ts (box n) target = refl

through-own_shared :
    (s : Slot) (target : Groups)
    → through own_shared s target ≡ own_shared (slot_or_default s) target
unfolding collect_shared
through-own_shared vacant target = refl
through-own_shared (box n) target = refl

shared_of-unsubscribe_at :
    (client_id : Str) (fs : List Str) (n : TrieNode)
    → shared_of (unsubscribe_at fs client_id none n).0 ≡ shared_of n
unfolding unsubscribe_at remove_subscription
shared_of-unsubscribe_at client_id [] (node cs p h subs shared) = refl
shared_of-unsubscribe_at client_id (s ∷ fs) (node cs p h subs shared) =
    elim (Bool-cases (bytes_eq s plus_segment)) [
      | inl e ↦ rw e refl
      | inr e ↦ elim (Bool-cases (bytes_eq s hash_segment)) [
        | inl k ↦ rw (e, k) refl
        | inr k ↦ rw (e, k) refl
      ]
    ]

-- The slot behind `#`, whose node alone is collected.
hash_kept :
    (client_id : Str) (fs : List Str) (h : Slot) (target : Groups)
    → through own_shared (unsubscribe_slot (unsubscribe_at fs client_id none) h).0 target
      ≡ through own_shared h target
hash_kept client_id fs h target =
    rw
      (
        through-own_shared (unsubscribe_slot (unsubscribe_at fs client_id none) h).0 target,
        slot_or_default-unsubscribe_slot fs client_id none h,
        shared_of-unsubscribe_at client_id fs (slot_or_default h),
      )
      (sym (through-own_shared h target))

slot_kept :
    (client_id : Str) (fs ts : List Str) (s : Slot) (target : Groups)
    → shared_at ts (unsubscribe_at fs client_id none (slot_or_default s)).0 target
      ≡ shared_at ts (slot_or_default s) target
    → through (shared_at ts) (unsubscribe_slot (unsubscribe_at fs client_id none) s).0 target
      ≡ through (shared_at ts) s target
slot_kept client_id fs ts s target e =
    rw
      (
        through-shared_at ts (unsubscribe_slot (unsubscribe_at fs client_id none) s).0 target,
        slot_or_default-unsubscribe_slot fs client_id none s,
      )
      (e ∙ sym (through-shared_at ts s target))

-- The child for `s`, as `t` looks it up.
child_kept :
    (client_id : Str) (fs ts : List Str) (s t : Str) (cs : Children) (target : Groups)
    → shared_at ts (unsubscribe_at fs client_id none (slot_or_default (child_get s cs))).0 target
      ≡ shared_at ts (slot_or_default (child_get s cs)) target
    → through
        (shared_at ts)
        (child_get t
          (put_child s (unsubscribe_slot (unsubscribe_at fs client_id none) (child_get s cs)).0 cs))
        target
      ≡ through (shared_at ts) (child_get t cs) target
child_kept client_id fs ts s t cs target e = elim (Bool-cases (bytes_eq s t)) [
  | inl q ↦
      rw
        (
          ← bytes_eq→eq s t q,
          child_get-put_child s
              (unsubscribe_slot (unsubscribe_at fs client_id none) (child_get s cs)).0 cs,
        )
        (slot_kept client_id fs ts (child_get s cs) target e)
  | inr q ↦
      rw
        (child_get-put_child_other s t
          (unsubscribe_slot (unsubscribe_at fs client_id none) (child_get s cs)).0 cs q)
        refl
]

shared_at-unsubscribe_at :
    (client_id : Str) (fs ts : List Str) (n : TrieNode) (target : Groups)
    → shared_at ts (unsubscribe_at fs client_id none n).0 target ≡ shared_at ts n target
unfolding shared_at unsubscribe_at remove_subscription
shared_at-unsubscribe_at client_id [] [] (node cs p h subs shared) target = refl
shared_at-unsubscribe_at client_id [] (t ∷ ts) (node cs p h subs shared) target = refl
shared_at-unsubscribe_at client_id (s ∷ fs) [] (node cs p h subs shared) target =
    elim (Bool-cases (bytes_eq s plus_segment)) [
      | inl e ↦ rw e refl
      | inr e ↦ elim (Bool-cases (bytes_eq s hash_segment)) [
        | inl k ↦ rw (e, k) (ap (collect_shared shared) (hash_kept client_id fs h target))
        | inr k ↦ rw (e, k) refl
      ]
    ]
shared_at-unsubscribe_at client_id (s ∷ fs) (t ∷ ts) (node cs p h subs shared) target =
    let plus = through (shared_at ts) p in
    let child = through (shared_at ts) (child_get t cs) in
    elim (Bool-cases (bytes_eq s plus_segment)) [
      | inl e ↦
          let target' = child (through own_shared h target) in
          rw e (
            slot_kept client_id fs ts p target'
              (shared_at-unsubscribe_at client_id fs ts (slot_or_default p) target'))
      | inr e ↦ elim (Bool-cases (bytes_eq s hash_segment)) [
        | inl k ↦ rw (e, k) (ap (λ m. plus (child m)) (hash_kept client_id fs h target))
        | inr k ↦
            rw (e, k)
              (ap plus (
                child_kept client_id fs ts s t cs (through own_shared h target) (
                  shared_at-unsubscribe_at client_id fs ts (slot_or_default (child_get s cs))
                    (through own_shared h target))))
      ]
    ]

-- Unsubscribing from a filter that is not shared leaves the shared groups of every topic as they were.
pub match_topic-unsubscribe-shared :
    (client_id topic_filter : Str) (root : TrieNode) (topic : Str)
    → (parse_shared_subscription topic_filter).0 ≡ none
    → (match_topic topic (unsubscribe client_id topic_filter root).0).shared
      ≡ (match_topic topic root).shared
unfolding match_topic unsubscribe
match_topic-unsubscribe-shared client_id topic_filter root topic normal =
    let ts = split_slash topic in
    let fs = split_slash (parse_shared_subscription topic_filter).1 in
    rw
      (
        normal,
        match_at-shared ts (unsubscribe_at fs client_id none root).0 no_route,
        match_at-shared ts root no_route,
      )
      (shared_at-unsubscribe_at client_id fs ts root [])
