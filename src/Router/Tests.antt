-- ===== src/Router/Tests.antt =====
-- Concrete filters and topics of src/router.rs: runs of the code, and the theorems at them.
use mathlib.Core.List.{Mem, Perm}
use pipistrelle.Router.Undone.{match_topic-unsubscribe-subscribe}
use pipistrelle.Router.Delivered.{mem-match_topic-subscribe}
use pipistrelle.Router.Subscribed.{node_at, Replaced, subscriptions_at, match_topic-subscribe}
use pipistrelle.Prelude.{◌≡◌, refl, [], ◌∷◌, none, some, true, false}
use pipistrelle.Prelude.Text.{Str, split_slash, split_cuts, starts_with}
use pipistrelle.Router.Maps.{values, get, insert, remove, entry_list}
use pipistrelle.Router.Trie.{
  TrieNode, default_node, SubscriptionInfo, subscribe, subscribe_at, add_subscription,
  retain_others, unsubscribe, unsubscribe_at, unsubscribe_slot, remove_subscription, is_some,
  is_empty, child_get, child_entry, child_remove, parse_shared_subscription,
}
use pipistrelle.Router.Match.{match_topic, match_at, collect_node_subscriptions, collect_shared}
use pipistrelle.Router.Filter.{matches, hash_last}
use pipistrelle.Router.Others.{match_topic-subscribe_other}
use pipistrelle.Router.Unsubscribed.{match_topic-unsubscribe_other}
use pipistrelle.Router.Removed.{match_topic-unsubscribe}
use pipistrelle.Router.Registered.{unsubscribe_removed, unsubscribe-subscribe}

abbrev c : Str
c = b'c' ∷ []

-- `a/+`
abbrev plus_filter : Str
plus_filter = b'a' ∷ b'/' ∷ b'+' ∷ []

-- `$share/g/a/+`
abbrev shared_filter : Str
shared_filter =
    b'$' ∷ b's' ∷ b'h' ∷ b'a' ∷ b'r' ∷ b'e' ∷ b'/' ∷ b'g' ∷ b'/' ∷ b'a' ∷ b'/' ∷ b'+' ∷ []

-- `a/#`
abbrev hash_filter : Str
hash_filter = b'a' ∷ b'/' ∷ b'#' ∷ []

-- `#/b`
abbrev hash_inside : Str
hash_inside = b'#' ∷ b'/' ∷ b'b' ∷ []

-- `a/b`
abbrev a_b : Str
a_b = b'a' ∷ b'/' ∷ b'b' ∷ []

-- Another client has subscribed to `a/#`.
abbrev sample_root : TrieNode
sample_root = subscribe (b'd' ∷ []) hash_filter 1 none default_node

abbrev info_c : SubscriptionInfo
info_c = record { client_id = c; qos = 2; subscription_identifier = some 7 }

abbrev info_d : SubscriptionInfo
info_d = record { client_id = b'd' ∷ []; qos = 1; subscription_identifier = none }

sample_normal :
    (match_topic a_b (subscribe c plus_filter 2 (some 7) sample_root)).normal ≡ info_d ∷ info_c ∷ []
unfolding match_topic match_at collect_node_subscriptions collect_shared subscribe subscribe_at
    add_subscription insert child_get child_entry parse_shared_subscription split_slash starts_with
sample_normal = refl

sample_shared :
    (match_topic a_b (subscribe c shared_filter 2 (some 7) sample_root)).shared
    ≡ (b'g' ∷ [], info_c ∷ []) ∷ []
unfolding match_topic match_at collect_node_subscriptions collect_shared subscribe subscribe_at
    add_subscription retain_others entry_list insert child_get child_entry parse_shared_subscription
    split_slash split_cuts starts_with
sample_shared = refl

-- A subscription to `#/b` stands at `#`, where `unsubscribe` does not look for it.
hash_inside_stays :
    (unsubscribe c hash_inside (subscribe c hash_inside 2 (some 7) default_node)).1 ≡ false
unfolding unsubscribe unsubscribe_at unsubscribe_slot remove_subscription remove get is_empty
    subscribe subscribe_at add_subscription insert child_get child_remove child_entry
    parse_shared_subscription split_slash starts_with
hash_inside_stays = refl

hash_inside_routed :
    (match_topic a_b
      (unsubscribe c hash_inside (subscribe c hash_inside 2 (some 7) default_node)).0).normal
    ≡ info_c ∷ []
unfolding match_topic match_at collect_node_subscriptions collect_shared unsubscribe unsubscribe_at
    unsubscribe_slot remove_subscription remove get is_empty subscribe subscribe_at add_subscription
    insert child_get child_remove child_entry parse_shared_subscription split_slash starts_with
hash_inside_routed = refl

match_topic-subscribe_example :
    Replaced
      (values (subscriptions_at plus_filter sample_root))
      (values (insert c info_c (subscriptions_at plus_filter sample_root)))
      (match_topic a_b sample_root).normal
      (match_topic a_b (subscribe c plus_filter 2 (some 7) sample_root)).normal
unfolding parse_shared_subscription split_slash starts_with matches
match_topic-subscribe_example =
    match_topic-subscribe c plus_filter 2 (some 7) sample_root a_b refl refl

match_topic-subscribe_other_example :
    match_topic c (subscribe c shared_filter 2 (some 7) sample_root) ≡ match_topic c sample_root
unfolding parse_shared_subscription split_slash split_cuts starts_with matches
match_topic-subscribe_other_example =
    match_topic-subscribe_other c shared_filter 2 (some 7) sample_root c refl

match_topic-unsubscribe_example :
    Replaced
      (values (subscriptions_at hash_filter sample_root))
      (values (remove (b'd' ∷ []) (subscriptions_at hash_filter sample_root)))
      (match_topic a_b sample_root).normal
      (match_topic a_b (unsubscribe (b'd' ∷ []) hash_filter sample_root).0).normal
    × ((match_topic a_b (unsubscribe (b'd' ∷ []) hash_filter sample_root).0).shared
        ≡ (match_topic a_b sample_root).shared)
unfolding parse_shared_subscription split_slash starts_with matches hash_last
match_topic-unsubscribe_example =
    match_topic-unsubscribe (b'd' ∷ []) hash_filter sample_root a_b refl refl refl

match_topic-unsubscribe_other_example :
    match_topic c (unsubscribe (b'd' ∷ []) hash_filter sample_root).0 ≡ match_topic c sample_root
unfolding parse_shared_subscription split_slash starts_with matches
match_topic-unsubscribe_other_example =
    match_topic-unsubscribe_other (b'd' ∷ []) hash_filter sample_root c refl

unsubscribe_removed_example :
    (unsubscribe c hash_filter sample_root).1
    ≡ is_some (get c (subscriptions_at hash_filter sample_root))
unfolding parse_shared_subscription split_slash starts_with hash_last
unsubscribe_removed_example = unsubscribe_removed c hash_filter sample_root refl refl

unsubscribe-subscribe_example :
    (unsubscribe c plus_filter (subscribe c plus_filter 2 (some 7) sample_root)).1 ≡ true
unfolding parse_shared_subscription split_slash starts_with hash_last
unsubscribe-subscribe_example = unsubscribe-subscribe c plus_filter 2 (some 7) sample_root refl refl

mem-match_topic-subscribe_example :
    Mem info_c (match_topic a_b (subscribe c plus_filter 2 (some 7) sample_root)).normal
unfolding parse_shared_subscription split_slash starts_with matches
mem-match_topic-subscribe_example =
    mem-match_topic-subscribe c plus_filter 2 (some 7) sample_root a_b refl refl

match_topic-unsubscribe-subscribe_example :
    Perm
      (match_topic a_b
        (unsubscribe c hash_filter (subscribe c hash_filter 2 (some 7) sample_root)).0).normal
      (match_topic a_b sample_root).normal
unfolding parse_shared_subscription split_slash starts_with hash_last get node_at subscribe
    subscribe_at add_subscription insert child_get child_entry
match_topic-unsubscribe-subscribe_example =
    match_topic-unsubscribe-subscribe c hash_filter 2 (some 7) sample_root a_b refl refl refl
