-- ===== src/Router/Removed.antt =====
-- What `unsubscribe` of src/router.rs changes for the topics that the filter matches.
use pipistrelle.Prelude.{◌≡◌, refl, true, List, [], ◌∷◌, ◌++◌, Bool-cases, inl, inr, none, arith}
use pipistrelle.Prelude.Text.{Str, bytes_eq, bytes_eq→eq, split_slash}
use pipistrelle.Router.Maps.{values, remove}
use pipistrelle.Router.Trie.{
  TrieNode, node, SubscriptionInfo, Slot, slot_or_default, unsubscribe_slot, child_get,
  remove_subscription, unsubscribe_at, unsubscribe, parse_shared_subscription, plus_segment,
  hash_segment,
}
use pipistrelle.Router.Children.{plus-ne-hash, hash-ne-plus}
use pipistrelle.Router.Match.{match_topic}
use pipistrelle.Router.Filter.{matches, hash_last, no_more}
use pipistrelle.Router.Normal.{
  own, from_slot, found, from_slot-found, from_slot-own, subscriptions_of, match_topic-normal,
}
use pipistrelle.Router.Emptied.{slot_or_default-unsubscribe_slot, child_get-put_child}
use pipistrelle.Router.Shared.{match_topic-unsubscribe-shared}
use pipistrelle.Router.Subscribed.{
  Replaced, Replaced-whole, Replaced-left, Replaced-right, node_at, subscriptions_at,
  literal_matches,
}

-- The subscriptions of a node but the client's.
abbrev without : Str → TrieNode → List SubscriptionInfo
without client_id n = values (remove client_id (subscriptions_of n))

own-remove_subscription :
    (client_id : Str) (n : TrieNode)
    → own (remove_subscription client_id none n).0 ≡ without client_id n
unfolding remove_subscription
own-remove_subscription client_id (node cs p h subs shared) = refl

at_hash :
    (client_id : Str) (fs : List Str) (h : Slot)
    → no_more fs ≡ true
    → Replaced
        (own (slot_or_default h))
        (without client_id (slot_or_default h))
        (from_slot own h)
        (from_slot own (unsubscribe_slot (unsubscribe_at fs client_id none) h).0)
unfolding unsubscribe_at
at_hash client_id [] h e =
    rw
      (
        from_slot-own h,
        from_slot-own (unsubscribe_slot (unsubscribe_at [] client_id none) h).0,
        slot_or_default-unsubscribe_slot [] client_id none h,
        own-remove_subscription client_id (slot_or_default h),
      )
      (Replaced-whole _ _)
at_hash client_id (f ∷ fs) h e = absurd (ground arith)

-- A slot in place of the node it stands for.
at_slot :
    (client_id : Str) (fs ts : List Str) {xs ys : List SubscriptionInfo} (s : Slot)
    → Replaced xs ys
        (found ts (slot_or_default s))
        (found ts (unsubscribe_at fs client_id none (slot_or_default s)).0)
    → Replaced xs ys
        (from_slot (found ts) s)
        (from_slot (found ts) (unsubscribe_slot (unsubscribe_at fs client_id none) s).0)
at_slot client_id fs ts s r =
    rw
      (
        from_slot-found ts s,
        from_slot-found ts (unsubscribe_slot (unsubscribe_at fs client_id none) s).0,
        slot_or_default-unsubscribe_slot fs client_id none s,
      )
      r

pub found-unsubscribe_at :
    (client_id : Str) (fs ts : List Str) (n : TrieNode)
    → hash_last fs ≡ true
    → matches fs ts ≡ true
    → Replaced
        (own (node_at fs n))
        (without client_id (node_at fs n))
        (found ts n)
        (found ts (unsubscribe_at fs client_id none n).0)
unfolding found unsubscribe_at node_at matches hash_last remove_subscription
found-unsubscribe_at client_id [] [] (node cs p h subs shared) l m =
    Replaced-left (from_slot own h) (Replaced-whole _ _)
found-unsubscribe_at client_id [] (t ∷ ts) n l m = absurd (ground arith)
found-unsubscribe_at client_id (s ∷ fs) [] (node cs p h subs shared) l m =
    rw (hash-ne-plus s m, m) (Replaced-right (values subs) (at_hash client_id fs h (rw m at l)))
found-unsubscribe_at client_id (s ∷ fs) (t ∷ ts) (node cs p h subs shared) l m =
    let plus = from_slot (found ts) p in
    let child = from_slot (found ts) (child_get t cs) in
    elim (Bool-cases (bytes_eq s plus_segment)) [
      | inl e ↦
          let rest : matches fs ts ≡ true = rw e at (rw (plus-ne-hash s e) at m) in
          let last : hash_last fs ≡ true = rw (plus-ne-hash s e) at l in
          rw e (
            Replaced-left (from_slot own h ++ child) (
              at_slot client_id fs ts p
                (found-unsubscribe_at client_id fs ts (slot_or_default p) last rest)))
      | inr e ↦ elim (Bool-cases (bytes_eq s hash_segment)) [
        | inl k ↦
            rw (e, k)
              (Replaced-right plus (Replaced-right child (at_hash client_id fs h (rw k at l))))
        | inr k ↦
            let same : bytes_eq s t ≡ true = literal_matches s t (matches fs ts) (rw (e, k) at m) in
            let rest : matches fs ts ≡ true = rw (e, k, same) at m in
            let c = (unsubscribe_slot (unsubscribe_at fs client_id none) (child_get t cs)).0 in
            rw (e, k, bytes_eq→eq s t same, child_get-put_child t c cs)
              (Replaced-right plus (
                Replaced-left (from_slot own h) (
                  at_slot client_id fs ts (child_get t cs) (
                    found-unsubscribe_at client_id fs ts (slot_or_default (child_get t cs))
                      (rw k at l) rest))))
      ]
    ]

normal-unsubscribe :
    (client_id topic_filter : Str) (root : TrieNode) (topic : Str)
    → (parse_shared_subscription topic_filter).0 ≡ none
    → hash_last (split_slash (parse_shared_subscription topic_filter).1) ≡ true
    → matches (split_slash (parse_shared_subscription topic_filter).1) (split_slash topic) ≡ true
    → let before = subscriptions_at (parse_shared_subscription topic_filter).1 root in
      Replaced
        (values before)
        (values (remove client_id before))
        (match_topic topic root).normal
        (match_topic topic (unsubscribe client_id topic_filter root).0).normal
unfolding unsubscribe
normal-unsubscribe client_id topic_filter root topic normal l m =
    rw
      (
        match_topic-normal topic root,
        match_topic-normal topic (unsubscribe client_id topic_filter root).0,
        normal,
      )
      (found-unsubscribe_at client_id _ (split_slash topic) root l m)

-- After a client has unsubscribed from a filter that is not shared and has no `#` before its end, each
-- topic that the filter matches is routed to the normal subscribers that it was routed to before, in
-- the same order, except that the entries of the filter's node are now those without the client's, and
-- to the same shared groups with the same members.
pub match_topic-unsubscribe :
    (client_id topic_filter : Str) (root : TrieNode) (topic : Str)
    → (parse_shared_subscription topic_filter).0 ≡ none
    → hash_last (split_slash (parse_shared_subscription topic_filter).1) ≡ true
    → matches (split_slash (parse_shared_subscription topic_filter).1) (split_slash topic) ≡ true
    → let before = subscriptions_at (parse_shared_subscription topic_filter).1 root in
      Replaced
        (values before)
        (values (remove client_id before))
        (match_topic topic root).normal
        (match_topic topic (unsubscribe client_id topic_filter root).0).normal
      × ((match_topic topic (unsubscribe client_id topic_filter root).0).shared
          ≡ (match_topic topic root).shared)
match_topic-unsubscribe client_id topic_filter root topic normal l m = (
  normal-unsubscribe client_id topic_filter root topic normal l m,
  match_topic-unsubscribe-shared client_id topic_filter root topic normal,
)
