-- ===== src/Router/Others.antt =====
-- `subscribe` of src/router.rs leaves the topics alone that the filter does not match.
use pipistrelle.Router.Children.{child_get-child_entry, child_get-child_entry_other, plus-ne-hash}
use pipistrelle.Router.Match.{
  no_route, match_topic, RouteResult, in_slot, match_at, collect_node_subscriptions, collect_shared,
}
use pipistrelle.Router.Trie.{
  parse_shared_subscription, SubscriptionInfo, subscribe, add_subscription, TrieNode, node,
  default_node, Children, Slot, vacant, box, slot_or_default, child_get, child_entry, subscribe_at,
  plus_segment, hash_segment,
}
use pipistrelle.Prelude.Text.{split_slash, Str, bytes_eq}
use pipistrelle.Prelude.{
  ℕ, Option, arith, append-nil, some, none, ◌≡◌, refl, ap, ◌∙◌, true, false, List, [], ◌∷◌,
  Bool-cases, inl, inr,
}
use pipistrelle.Router.Filter.{matches}

-- A new node routes nothing.
match_at-default : (ts : List Str) (r : RouteResult) → match_at ts default_node r ≡ r
unfolding match_at child_get collect_node_subscriptions collect_shared
match_at-default [] r = ap (λ l. record { normal = l; shared = r.shared }) (append-nil r.normal)
match_at-default (t ∷ ts) r = refl

pub slot_default :
    (ts : List Str) (s : Slot) (r : RouteResult)
    → match_at ts (slot_or_default s) r ≡ in_slot (match_at ts) s r
slot_default ts vacant r = match_at-default ts r
slot_default ts (box n) r = refl

-- A child is updated by `g`, which makes no difference to `ts` if it is the child for `t`.
at_child :
    (s t : Str) (g : TrieNode → TrieNode) (ts : List Str) (cs : Children) (r : RouteResult)
    → (bytes_eq s t ≡ true → (n : TrieNode) → match_at ts (g n) r ≡ match_at ts n r)
    → in_slot (match_at ts) (child_get t (child_entry s g cs)) r
      ≡ in_slot (match_at ts) (child_get t cs) r
at_child s t g ts cs r h = elim (Bool-cases (bytes_eq s t)) [
  | inl e ↦
      rw (child_get-child_entry s t g cs e)
        (h e (slot_or_default (child_get t cs)) ∙ slot_default ts (child_get t cs) r)
  | inr e ↦ rw (child_get-child_entry_other s t g cs e) refl
]

-- What a change `f` of a node does not touch.
module _ (f : TrieNode → TrieNode)
    (local : (t : Str) (ts : List Str) (n : TrieNode) (r : RouteResult)
      → match_at (t ∷ ts) (f n) r ≡ match_at (t ∷ ts) n r) where
  pub subscribe_at_other :
      (fs ts : List Str) (n : TrieNode) (r : RouteResult)
      → matches fs ts ≡ false
      → match_at ts (subscribe_at fs f n) r ≡ match_at ts n r
  unfolding subscribe_at matches match_at collect_node_subscriptions
  subscribe_at_other [] [] n r h = absurd (ground arith)
  subscribe_at_other [] (t ∷ ts) n r h = local t ts n r
  subscribe_at_other (s ∷ fs) [] (node cs p o subs shared) r h =
      elim (Bool-cases (bytes_eq s plus_segment)) [ inl e ↦ rw e refl | inr e ↦ rw e (rw h refl) ]
  subscribe_at_other (s ∷ fs) (t ∷ ts) (node cs p o subs shared) r h =
      elim (Bool-cases (bytes_eq s plus_segment)) [
        | inl e ↦
            let rest : matches fs ts ≡ false = rw e at (rw (plus-ne-hash s e) at h) in
            rw e (subscribe_at_other fs ts (slot_or_default p) _ rest ∙ slot_default ts p _)
        | inr e ↦ elim (Bool-cases (bytes_eq s hash_segment)) [
          | inl k ↦ (let wrong : true ≡ false = rw k at h in absurd (ground arith))
          | inr k ↦
              rw (e, k)
                (ap (in_slot (match_at ts) p) (
                  at_child s t (subscribe_at fs f) ts cs _
                    (λ l n. subscribe_at_other fs ts n _ (rw (e, k, l) at h))))
        ]
      ]

add_subscription_local :
    (group : Option Str) (info : SubscriptionInfo) (t : Str) (ts : List Str) (n : TrieNode)
    (r : RouteResult)
    → match_at (t ∷ ts) (add_subscription group info n) r ≡ match_at (t ∷ ts) n r
unfolding match_at add_subscription
add_subscription_local none info t ts (node cs p h subs shared) r = refl
add_subscription_local (some group) info t ts (node cs p h subs shared) r = refl

-- A subscription, shared or not, changes nothing in what a topic is routed to that its filter does
-- not match.
pub match_topic-subscribe_other :
    (client_id topic_filter : Str) (qos : ℕ) (id : Option ℕ) (root : TrieNode) (topic : Str)
    → matches (split_slash (parse_shared_subscription topic_filter).1) (split_slash topic) ≡ false
    → match_topic topic (subscribe client_id topic_filter qos id root) ≡ match_topic topic root
unfolding match_topic subscribe
match_topic-subscribe_other client_id topic_filter qos id root topic h =
    subscribe_at_other _ (add_subscription_local (parse_shared_subscription topic_filter).0 _) _ _
      root no_route h
