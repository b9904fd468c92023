-- ===== src/Router/Normal.antt =====
-- The normal subscriptions that `match_topic` of src/router.rs finds, as a list of their own.
use pipistrelle.Prelude.{◌≡◌, refl, ap, ◌∙◌, List, [], ◌∷◌, ◌++◌, append_assoc, append-nil, sym}
use pipistrelle.Prelude.Text.{Str, split_slash}
use pipistrelle.Router.Maps.{HashMap, values}
use pipistrelle.Router.Trie.{
  TrieNode, node, Slot, vacant, box, default_node, slot_or_default, SubscriptionInfo, child_get,
}
use pipistrelle.Router.Match.{
  RouteResult, in_slot, match_at, collect_node_subscriptions, match_topic, no_route,
}

abbrev pub subscriptions_of : TrieNode → HashMap SubscriptionInfo
subscriptions_of (node cs p h subs shared) = subs

abbrev pub own : TrieNode → List SubscriptionInfo
own n = values (subscriptions_of n)

abbrev pub from_slot : (TrieNode → List SubscriptionInfo) → Slot → List SubscriptionInfo
from_slot f vacant = []
from_slot f (box n) = f n

unfoldable pub found : List Str → TrieNode → List SubscriptionInfo
found [] (node cs p h subs shared) = from_slot own h ++ values subs
found (t ∷ ts) (node cs p h subs shared) =
    from_slot own h ++ from_slot (found ts) (child_get t cs) ++ from_slot (found ts) p

in_slot-normal :
    (f : TrieNode → RouteResult → RouteResult) (g : TrieNode → List SubscriptionInfo)
    → ((n : TrieNode) (r : RouteResult) → (f n r).normal ≡ r.normal ++ g n)
    → (s : Slot) (r : RouteResult) → (in_slot f s r).normal ≡ r.normal ++ from_slot g s
in_slot-normal f g e vacant r = sym (append-nil r.normal)
in_slot-normal f g e (box n) r = e n r

collect-normal :
    (n : TrieNode) (r : RouteResult) → (collect_node_subscriptions n r).normal ≡ r.normal ++ own n
unfolding collect_node_subscriptions
collect-normal (node cs p h subs shared) r = refl

pub match_at-normal :
    (ts : List Str) (n : TrieNode) (r : RouteResult)
    → (match_at ts n r).normal ≡ r.normal ++ found ts n
unfolding match_at found
match_at-normal [] (node cs p h subs shared) r =
    rw
      (
        collect-normal (node cs p h subs shared) (in_slot collect_node_subscriptions h r),
        in_slot-normal collect_node_subscriptions own collect-normal h r,
      )
      (append_assoc r.normal (from_slot own h) (values subs))
match_at-normal (t ∷ ts) (node cs p h subs shared) r =
    let deep = match_at-normal ts in
    let r₁ = in_slot collect_node_subscriptions h r in
    let r₂ = in_slot (match_at ts) (child_get t cs) r₁ in
    let child = from_slot (found ts) (child_get t cs) in
    rw
      (
        in_slot-normal (match_at ts) (found ts) deep p r₂,
        in_slot-normal (match_at ts) (found ts) deep (child_get t cs) r₁,
        in_slot-normal collect_node_subscriptions own collect-normal h r,
      )
      (ap (λ l. l ++ from_slot (found ts) p) (append_assoc r.normal (from_slot own h) child)
        ∙ append_assoc r.normal (from_slot own h ++ child) (from_slot (found ts) p))

found-default : (ts : List Str) → found ts default_node ≡ []
unfolding found child_get
found-default [] = refl
found-default (t ∷ ts) = refl

pub from_slot-found :
    (ts : List Str) (s : Slot) → from_slot (found ts) s ≡ found ts (slot_or_default s)
from_slot-found ts vacant = sym (found-default ts)
from_slot-found ts (box n) = refl

pub from_slot-own : (s : Slot) → from_slot own s ≡ own (slot_or_default s)
from_slot-own vacant = refl
from_slot-own (box n) = refl

pub match_topic-normal :
    (topic : Str) (root : TrieNode)
    → (match_topic topic root).normal ≡ found (split_slash topic) root
unfolding match_topic
match_topic-normal topic root = match_at-normal (split_slash topic) root no_route
