-- ===== src/Router/Unsubscribed.antt =====
-- What `unsubscribe` of src/router.rs changes.
use pipistrelle.Prelude.{
  ◌≡◌, refl, ap, ◌∙◌, sym, true, false, List, [], ◌∷◌, Bool-cases, inl, inr, Option, none, some,
  arith,
}
use pipistrelle.Prelude.Text.{Str, bytes_eq, bytes_eq→eq, split_slash}
use pipistrelle.Router.Trie.{
  TrieNode, node, Children, Slot, slot_or_default, unsubscribe_slot, child_get, put_child,
  remove_subscription, unsubscribe_at, unsubscribe, parse_shared_subscription, plus_segment,
  hash_segment,
}
use pipistrelle.Router.Children.{plus-ne-hash}
use pipistrelle.Router.Match.{
  RouteResult, in_slot, match_at, match_topic, no_route, collect_node_subscriptions,
}
use pipistrelle.Router.Filter.{matches}
use pipistrelle.Router.Others.{slot_default}
use pipistrelle.Router.Emptied.{
  slot_or_default-unsubscribe_slot, child_get-put_child, child_get-put_child_other,
}

remove_subscription_local :
    (client_id : Str) (group : Option Str) (t : Str) (ts : List Str) (n : TrieNode)
    (r : RouteResult)
    → match_at (t ∷ ts) (remove_subscription client_id group n).0 r ≡ match_at (t ∷ ts) n r
unfolding match_at remove_subscription
remove_subscription_local client_id none t ts (node cs p h subs shared) r = refl
remove_subscription_local client_id (some group) t ts (node cs p h subs shared) r = refl

-- Where removing below a node makes no difference to `ts`, it makes none below a slot.
at_slot :
    (fs : List Str) (client_id : Str) (group : Option Str) (ts : List Str) (r : RouteResult)
    → ((n : TrieNode) → match_at ts (unsubscribe_at fs client_id group n).0 r ≡ match_at ts n r)
    → (s : Slot)
    → in_slot (match_at ts) (unsubscribe_slot (unsubscribe_at fs client_id group) s).0 r
      ≡ in_slot (match_at ts) s r
at_slot fs client_id group ts r same s =
    sym (slot_default ts (unsubscribe_slot (unsubscribe_at fs client_id group) s).0 r)
    ∙ ap (λ n. match_at ts n r) (slot_or_default-unsubscribe_slot fs client_id group s)
    ∙ same (slot_or_default s)
    ∙ slot_default ts s r

-- The child for `s` is put back after a removal that makes no difference to `ts` if `s` is `t`.
at_put_child :
    (s t : Str) (fs : List Str) (client_id : Str) (group : Option Str) (ts : List Str)
    (cs : Children) (r : RouteResult)
    → (bytes_eq s t ≡ true
        → (n : TrieNode) → match_at ts (unsubscribe_at fs client_id group n).0 r ≡ match_at ts n r)
    → in_slot
        (match_at ts)
        (child_get t (
          put_child s (unsubscribe_slot (unsubscribe_at fs client_id group) (child_get s cs)).0 cs))
        r
      ≡ in_slot (match_at ts) (child_get t cs) r
at_put_child s t fs client_id group ts cs r same = elim (Bool-cases (bytes_eq s t)) [
  | inl e ↦ rw (bytes_eq→eq s t e) (
      rw
        (child_get-put_child t
          (unsubscribe_slot (unsubscribe_at fs client_id group) (child_get t cs)).0 cs)
        (at_slot fs client_id group ts r (same e) (child_get t cs)))
  | inr e ↦
      rw
        (child_get-put_child_other s t
          (unsubscribe_slot (unsubscribe_at fs client_id group) (child_get s cs)).0 cs e)
        refl
]

unsubscribe_at_other :
    (fs ts : List Str) (client_id : Str) (group : Option Str) (n : TrieNode) (r : RouteResult)
    → matches fs ts ≡ false
    → match_at ts (unsubscribe_at fs client_id group n).0 r ≡ match_at ts n r
unfolding unsubscribe_at matches match_at collect_node_subscriptions
unsubscribe_at_other [] [] client_id group n r h = absurd (ground arith)
unsubscribe_at_other [] (t ∷ ts) client_id group n r h =
    remove_subscription_local client_id group t ts n r
unsubscribe_at_other (s ∷ fs) [] client_id group (node cs p o subs shared) r h =
    elim (Bool-cases (bytes_eq s plus_segment)) [ inl e ↦ rw e refl | inr e ↦ rw (e, h) refl ]
unsubscribe_at_other (s ∷ fs) (t ∷ ts) client_id group (node cs p o subs shared) r h =
    elim (Bool-cases (bytes_eq s plus_segment)) [
      | inl e ↦
          let rest : matches fs ts ≡ false = rw e at (rw (plus-ne-hash s e) at h) in
          rw e (
            at_slot fs client_id group ts _
              (λ n. unsubscribe_at_other fs ts client_id group n _ rest) p)
      | inr e ↦ elim (Bool-cases (bytes_eq s hash_segment)) [
        | inl k ↦ (let wrong : true ≡ false = rw k at h in absurd (ground arith))
        | inr k ↦
            rw (e, k)
              (ap (in_slot (match_at ts) p) (
                at_put_child s t fs client_id group ts cs _
                  (λ l n. unsubscribe_at_other fs ts client_id group n _ (rw (e, k, l) at h))))
      ]
    ]

-- Unsubscribing, from a shared filter or another, changes nothing in what a topic is routed to that
-- the filter does not match.
pub match_topic-unsubscribe_other :
    (client_id topic_filter : Str) (root : TrieNode) (topic : Str)
    → matches (split_slash (parse_shared_subscription topic_filter).1) (split_slash topic) ≡ false
    → match_topic topic (unsubscribe client_id topic_filter root).0 ≡ match_topic topic root
unfolding match_topic unsubscribe
match_topic-unsubscribe_other client_id topic_filter root topic h =
    unsubscribe_at_other _ _ client_id (parse_shared_subscription topic_filter).0 root no_route h
