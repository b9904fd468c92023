-- ===== src/Router/Match.antt =====
-- `match_topic` of src/router.rs.
use pipistrelle.Prelude.{List, [], ◌∷◌, ◌++◌}
use pipistrelle.Prelude.Text.{Str, split_slash}
use pipistrelle.Router.Maps.{HashMap, values, entry_list}
use pipistrelle.Router.Trie.{SubscriptionInfo, TrieNode, node, Slot, vacant, box, child_get}

pub record RouteResult : Type 0 where
  pub normal : List SubscriptionInfo
  pub shared : HashMap (List SubscriptionInfo)

abbrev pub no_route : RouteResult
no_route = record { normal = []; shared = [] }

-- The groups of a node, each pushed behind what the result has of that group.
unfoldable pub collect_shared :
    HashMap (List SubscriptionInfo)
    → HashMap (List SubscriptionInfo)
    → HashMap (List SubscriptionInfo)
collect_shared [] target = target
collect_shared ((group, list) ∷ groups) target =
    collect_shared groups (entry_list group (λ subs. subs ++ list) target)

unfoldable pub collect_node_subscriptions : TrieNode → RouteResult → RouteResult
collect_node_subscriptions (node cs p h subs shared) result = record {
  normal = result.normal ++ values subs;
  shared = collect_shared shared result.shared;
}

-- `if let Some(child) = slot { f(child, result) }`
abbrev pub in_slot : (TrieNode → RouteResult → RouteResult) → Slot → RouteResult → RouteResult
in_slot f vacant result = result
in_slot f (box n) result = f n result

-- `match_recursive`
unfoldable pub match_at : List Str → TrieNode → RouteResult → RouteResult
match_at [] (node cs p h subs shared) result =
    collect_node_subscriptions (node cs p h subs shared)
      (in_slot collect_node_subscriptions h result)
match_at (segment ∷ segments) (node cs p h subs shared) result = in_slot (match_at segments) p (
    in_slot (match_at segments) (child_get segment cs)
      (in_slot collect_node_subscriptions h result))

unfoldable pub match_topic : Str → TrieNode → RouteResult
match_topic topic root = match_at (split_slash topic) root no_route
