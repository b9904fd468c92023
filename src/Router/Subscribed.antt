-- ===== src/Router/Subscribed.antt =====
-- What `subscribe` of src/router.rs changes for the topics that the filter matches.
use pipistrelle.Prelude.{
  ℕ, ◌≡◌, refl, ap, ◌∙◌, sym, Bool, true, false, List, [], ◌∷◌, ◌++◌, append_assoc, append-nil,
  Bool-cases, inl, inr, if◌then◌else◌, Option, none, arith,
}
use pipistrelle.Prelude.Text.{Str, bytes_eq, bytes_eq→eq, split_slash}
use pipistrelle.Router.Maps.{HashMap, values, insert}
use pipistrelle.Router.Trie.{
  TrieNode, node, Slot, SubscriptionInfo, child_get, slot_or_default, subscribe_at,
  add_subscription, subscribe, parse_shared_subscription, plus_segment, hash_segment,
}
use pipistrelle.Router.Children.{child_get-child_entry, plus-ne-hash, hash-ne-plus}
use pipistrelle.Router.Normal.{
  own, subscriptions_of, from_slot, found, match_topic-normal, from_slot-found, from_slot-own,
}
use pipistrelle.Router.Match.{match_topic}
use pipistrelle.Router.Filter.{matches}

-- `ys` is `xs` with `new` in one place where `xs` has `old`.
pub record Replaced {ℓ} {A : Type ℓ} (old new xs ys : List A) : Type ℓ where
  pub before : List A
  pub after : List A
  pub was : xs ≡ before ++ old ++ after
  pub is : ys ≡ before ++ new ++ after

module _ {ℓ} {A : Type ℓ} {old new xs ys : List A} where
  pub Replaced-right :
      (zs : List A) → Replaced old new xs ys → Replaced old new (xs ++ zs) (ys ++ zs)
  Replaced-right zs r = record {
    before = r.before;
    after = r.after ++ zs;
    was = rw r.was (append_assoc (r.before ++ old) r.after zs);
    is = rw r.is (append_assoc (r.before ++ new) r.after zs);
  }

  pub Replaced-left :
      (zs : List A) → Replaced old new xs ys → Replaced old new (zs ++ xs) (zs ++ ys)
  Replaced-left zs r = record {
    before = zs ++ r.before;
    after = r.after;
    was = rw r.was (
        sym (append_assoc zs (r.before ++ old) r.after)
        ∙ ap (λ l. l ++ r.after) (sym (append_assoc zs r.before old)));
    is = rw r.is (
        sym (append_assoc zs (r.before ++ new) r.after)
        ∙ ap (λ l. l ++ r.after) (sym (append_assoc zs r.before new)));
  }

-- The node at which the walk of `subscribe` ends; a new one where there is none.
unfoldable pub node_at : List Str → TrieNode → TrieNode
node_at [] n = n
node_at (segment ∷ segments) (node cs p h subs shared) =
    let below = node_at segments in
    if bytes_eq segment plus_segment
    then below (slot_or_default p)
    else if bytes_eq segment hash_segment
    then slot_or_default h
    else below (slot_or_default (child_get segment cs))

pub Replaced-whole {ℓ} : {A : Type ℓ} (old new : List A) → Replaced old new old new
Replaced-whole old new = record {
  before = [];
  after = [];
  was = sym (append-nil old);
  is = sym (append-nil new);
}

-- The subscriptions of a node with that of `info` among them.
abbrev with_info : SubscriptionInfo → TrieNode → List SubscriptionInfo
with_info info n = values (insert info.client_id info (subscriptions_of n))

own-add_subscription :
    (info : SubscriptionInfo) (n : TrieNode) → own (add_subscription none info n) ≡ with_info info n
unfolding add_subscription
own-add_subscription info (node cs p h subs shared) = refl

-- The child behind `#`.
at_hash :
    (info : SubscriptionInfo) (h : Slot)
    → Replaced
        (own (slot_or_default h))
        (with_info info (slot_or_default h))
        (from_slot own h)
        (own (add_subscription none info (slot_or_default h)))
at_hash info h =
    rw (from_slot-own h, own-add_subscription info (slot_or_default h)) (Replaced-whole _ _)

pub literal_matches :
    (s t : Str) (b : Bool) → (if bytes_eq s t then b else false) ≡ true → bytes_eq s t ≡ true
literal_matches s t b h = ground arith

pub found-subscribe_at :
    (info : SubscriptionInfo) (fs ts : List Str) (n : TrieNode)
    → matches fs ts ≡ true
    → Replaced
        (own (node_at fs n))
        (with_info info (node_at fs n))
        (found ts n)
        (found ts (subscribe_at fs (add_subscription none info) n))
unfolding found subscribe_at node_at matches add_subscription
found-subscribe_at info [] [] (node cs p h subs shared) m =
    Replaced-left (from_slot own h) (Replaced-whole _ _)
found-subscribe_at info [] (t ∷ ts) n m = absurd (ground arith)
found-subscribe_at info (s ∷ fs) [] (node cs p h subs shared) m =
    rw (hash-ne-plus s m, m) (Replaced-right (values subs) (at_hash info h))
found-subscribe_at info (s ∷ fs) (t ∷ ts) (node cs p h subs shared) m =
    let plus = from_slot (found ts) p in
    let child = from_slot (found ts) (child_get t cs) in
    elim (Bool-cases (bytes_eq s plus_segment)) [
      | inl e ↦
          let rest : matches fs ts ≡ true = rw e at (rw (plus-ne-hash s e) at m) in
          rw e (
            Replaced-left (from_slot own h ++ child)
              (rw (from_slot-found ts p) (found-subscribe_at info fs ts (slot_or_default p) rest)))
      | inr e ↦ elim (Bool-cases (bytes_eq s hash_segment)) [
        | inl k ↦ rw (e, k) (Replaced-right plus (Replaced-right child (at_hash info h)))
        | inr k ↦
            let same : bytes_eq s t ≡ true = literal_matches s t (matches fs ts) (rw (e, k) at m) in
            let rest : matches fs ts ≡ true = rw (e, k, same) at m in
            rw
              (
                e,
                k,
                child_get-child_entry s t (subscribe_at fs (add_subscription none info)) cs same,
                bytes_eq→eq s t same,
              )
              (Replaced-right plus (
                Replaced-left (from_slot own h) (
                  rw (from_slot-found ts (child_get t cs))
                    (found-subscribe_at info fs ts (slot_or_default (child_get t cs)) rest))))
      ]
    ]

-- The normal subscriptions at the node of a filter.
abbrev pub subscriptions_at : Str → TrieNode → HashMap SubscriptionInfo
subscriptions_at filter root = subscriptions_of (node_at (split_slash filter) root)

-- After a subscription that is not shared, each topic that the filter matches is routed to the normal
-- subscribers that it was routed to before, in the same order, except that the entries of the
-- filter's node are now those with the client's entry put in.
pub match_topic-subscribe :
    (client_id topic_filter : Str) (qos : ℕ) (id : Option ℕ) (root : TrieNode) (topic : Str)
    → (parse_shared_subscription topic_filter).0 ≡ none
    → matches (split_slash (parse_shared_subscription topic_filter).1) (split_slash topic) ≡ true
    → let before = subscriptions_at (parse_shared_subscription topic_filter).1 root in
      let info : SubscriptionInfo = record {
        client_id = client_id;
        qos = qos;
        subscription_identifier = id;
      } in
      Replaced
        (values before)
        (values (insert client_id info before))
        (match_topic topic root).normal
        (match_topic topic (subscribe client_id topic_filter qos id root)).normal
unfolding subscribe
match_topic-subscribe client_id topic_filter qos id root topic normal m =
    rw
      (
        match_topic-normal topic root,
        match_topic-normal topic (subscribe client_id topic_filter qos id root),
        normal,
      )
      (found-subscribe_at _ _ (split_slash topic) root m)
