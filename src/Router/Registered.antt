-- ===== src/Router/Registered.antt =====
-- Which subscriptions the trie of src/router.rs holds after `subscribe`, and what `unsubscribe` says.
use pipistrelle.Prelude.{
  ℕ, ◌≡◌, refl, ◌∙◌, sym, true, false, List, [], ◌∷◌, Bool-cases, inl, inr, Option, none, arith,
}
use pipistrelle.Prelude.Text.{Str, bytes_eq, bytes_eq_refl, split_slash}
use pipistrelle.Router.Maps.{insert, get, get-insert}
use pipistrelle.Router.Trie.{
  TrieNode, node, default_node, Slot, vacant, box, SubscriptionInfo, slot_or_default, is_some,
  unsubscribe_slot, child_get, add_subscription, subscribe_at, subscribe, remove_subscription,
  unsubscribe_at, unsubscribe, parse_shared_subscription, plus_segment, hash_segment,
}
use pipistrelle.Router.Children.{child_get-child_entry, plus-ne-hash}
use pipistrelle.Router.Filter.{hash_last, no_more}
use pipistrelle.Router.Normal.{subscriptions_of}
use pipistrelle.Router.Subscribed.{node_at, subscriptions_at}

-- The node at which the walk ends is the one that is changed.
node_at-subscribe_at :
    (f : TrieNode → TrieNode) (fs : List Str) (n : TrieNode)
    → node_at fs (subscribe_at fs f n) ≡ f (node_at fs n)
unfolding node_at subscribe_at
node_at-subscribe_at f [] n = refl
node_at-subscribe_at f (s ∷ fs) (node cs p h subs shared) =
    elim (Bool-cases (bytes_eq s plus_segment)) [
      | inl e ↦ rw e (rw e (node_at-subscribe_at f fs (slot_or_default p)))
      | inr e ↦ elim (Bool-cases (bytes_eq s hash_segment)) [
        | inl k ↦ rw (e, k) (rw (e, k) refl)
        | inr k ↦
            rw (e, k)
              (rw (e, k, child_get-child_entry s s (subscribe_at fs f) cs (bytes_eq_refl s))
                (node_at-subscribe_at f fs (slot_or_default (child_get s cs))))
      ]
    ]

unsubscribe_at_nothing :
    (fs : List Str) (client_id : Str) → (unsubscribe_at fs client_id none default_node).1 ≡ false
unfolding unsubscribe_at unsubscribe_slot remove_subscription child_get get
unsubscribe_at_nothing [] client_id = refl
unsubscribe_at_nothing (s ∷ fs) client_id = elim (Bool-cases (bytes_eq s plus_segment)) [
  | inl e ↦ rw e refl
  | inr e ↦ elim (Bool-cases (bytes_eq s hash_segment)) [
    | inl k ↦ rw (e, k) refl
    | inr k ↦ rw (e, k) refl
  ]
]

unsubscribe_slot_removed :
    (fs : List Str) (client_id : Str) (s : Slot)
    → (unsubscribe_slot (unsubscribe_at fs client_id none) s).1
      ≡ (unsubscribe_at fs client_id none (slot_or_default s)).1
unfolding unsubscribe_slot
unsubscribe_slot_removed fs client_id vacant = sym (unsubscribe_at_nothing fs client_id)
unsubscribe_slot_removed fs client_id (box n) = refl

remove_subscription_removed :
    (client_id : Str) (n : TrieNode)
    → (remove_subscription client_id none n).1 ≡ is_some (get client_id (subscriptions_of n))
unfolding remove_subscription
remove_subscription_removed client_id (node cs p h subs shared) = refl

removed_at_hash :
    (fs : List Str) (client_id : Str) (n : TrieNode)
    → no_more fs ≡ true
    → (unsubscribe_at fs client_id none n).1 ≡ is_some (get client_id (subscriptions_of n))
unfolding unsubscribe_at
removed_at_hash [] client_id n e = remove_subscription_removed client_id n
removed_at_hash (f ∷ fs) client_id n e = absurd (ground arith)

unsubscribe_at_removed :
    (fs : List Str) (client_id : Str) (n : TrieNode)
    → hash_last fs ≡ true
    → (unsubscribe_at fs client_id none n).1
      ≡ is_some (get client_id (subscriptions_of (node_at fs n)))
unfolding unsubscribe_at node_at hash_last
unsubscribe_at_removed [] client_id n l = remove_subscription_removed client_id n
unsubscribe_at_removed (s ∷ fs) client_id (node cs p h subs shared) l =
    elim (Bool-cases (bytes_eq s plus_segment)) [
      | inl e ↦
          let last : hash_last fs ≡ true = rw (plus-ne-hash s e) at l in
          rw e (
            unsubscribe_slot_removed fs client_id p
            ∙ unsubscribe_at_removed fs client_id (slot_or_default p) last)
      | inr e ↦ elim (Bool-cases (bytes_eq s hash_segment)) [
        | inl k ↦
            rw (e, k)
              (unsubscribe_slot_removed fs client_id h
                ∙ removed_at_hash fs client_id (slot_or_default h) (rw k at l))
        | inr k ↦
            rw (e, k)
              (unsubscribe_slot_removed fs client_id (child_get s cs)
                ∙ unsubscribe_at_removed fs client_id (slot_or_default (child_get s cs))
                    (rw k at l))
      ]
    ]

-- `unsubscribe` from a filter that is not shared and has no `#` before its end returns whether the
-- client has a subscription at the filter's node.
pub unsubscribe_removed :
    (client_id topic_filter : Str) (root : TrieNode)
    → (parse_shared_subscription topic_filter).0 ≡ none
    → hash_last (split_slash (parse_shared_subscription topic_filter).1) ≡ true
    → (unsubscribe client_id topic_filter root).1
      ≡ is_some (get client_id (subscriptions_at (parse_shared_subscription topic_filter).1 root))
unfolding unsubscribe
unsubscribe_removed client_id topic_filter root normal l =
    rw normal (unsubscribe_at_removed _ client_id root l)

subscriptions_of-add_subscription :
    (info : SubscriptionInfo) (n : TrieNode)
    → subscriptions_of (add_subscription none info n)
      ≡ insert info.client_id info (subscriptions_of n)
unfolding add_subscription
subscriptions_of-add_subscription info (node cs p h subs shared) = refl

-- `unsubscribe` returns true for a client that has just subscribed to the same filter, if the filter is
-- not shared and has no `#` before its end.
pub unsubscribe-subscribe :
    (client_id topic_filter : Str) (qos : ℕ) (id : Option ℕ) (root : TrieNode)
    → (parse_shared_subscription topic_filter).0 ≡ none
    → hash_last (split_slash (parse_shared_subscription topic_filter).1) ≡ true
    → (unsubscribe client_id topic_filter (subscribe client_id topic_filter qos id root)).1 ≡ true
unfolding subscribe
unsubscribe-subscribe client_id topic_filter qos id root normal l =
    let fs = split_slash (parse_shared_subscription topic_filter).1 in
    let info : SubscriptionInfo = record {
      client_id = client_id;
      qos = qos;
      subscription_identifier = id;
    } in
    unsubscribe_removed client_id topic_filter (subscribe client_id topic_filter qos id root) normal
      l
    ∙ rw
        (
          normal,
          node_at-subscribe_at (add_subscription none info) fs root,
          subscriptions_of-add_subscription info (node_at fs root),
          get-insert client_id client_id info (subscriptions_of (node_at fs root)),
          bytes_eq_refl client_id,
        )
        refl
