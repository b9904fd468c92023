-- ===== src/Router/Delivered.antt =====
-- Whom `match_topic` of src/router.rs finds after `subscribe`.
use mathlib.Core.List.{Mem, mem-append_left, mem-append_right}
use pipistrelle.Prelude.{ℕ, ◌≡◌, true, Option, none}
use pipistrelle.Prelude.Text.{Str, split_slash}
use pipistrelle.Router.Maps.{mem-values-insert}
use pipistrelle.Router.Trie.{TrieNode, SubscriptionInfo, subscribe, parse_shared_subscription}
use pipistrelle.Router.Match.{match_topic}
use pipistrelle.Router.Filter.{matches}
use pipistrelle.Router.Subscribed.{subscriptions_at, match_topic-subscribe}

-- A client that has subscribed to a filter that is not shared is among the normal subscribers of every
-- topic that the filter matches, with the QoS and the identifier that it asked for.
pub mem-match_topic-subscribe :
    (client_id topic_filter : Str) (qos : ℕ) (id : Option ℕ) (root : TrieNode) (topic : Str)
    → (parse_shared_subscription topic_filter).0 ≡ none
    → matches (split_slash (parse_shared_subscription topic_filter).1) (split_slash topic) ≡ true
    → let info : SubscriptionInfo = record {
      client_id = client_id;
      qos = qos;
      subscription_identifier = id;
    } in
      Mem info (match_topic topic (subscribe client_id topic_filter qos id root)).normal
mem-match_topic-subscribe client_id topic_filter qos id root topic normal m =
    let r = match_topic-subscribe client_id topic_filter qos id root topic normal m in
    let at_filter = subscriptions_at (parse_shared_subscription topic_filter).1 root in
    rw r.is (
      mem-append_left r.after (mem-append_right r.before (mem-values-insert client_id _ at_filter)))
