-- ===== src/Router/Trie.antt =====
-- `TrieNode` and `TopicRouter` of src/router.rs. The router's lock makes each operation one step.
use pipistrelle.Prelude.{
  ℕ, Bool, true, false, ◌&&◌, ltb, length, List, [], ◌∷◌, ◌++◌, Option, none, some, if◌then◌else◌,
}
use pipistrelle.Prelude.Text.{Str, bytes_eq, split_slash, split_cuts, starts_with}
use pipistrelle.Router.Maps.{HashMap, get, insert, remove, entry_list}

pub record SubscriptionInfo : Type 0 where
  pub client_id : Str
  pub qos : ℕ
  pub subscription_identifier : Option ℕ

-- `node children plus_child hash_child subscriptions shared_subscriptions`; a `Slot` is an
-- `Option<Box<TrieNode>>`, and `Children` is the map from segments.
mutual
  pub data TrieNode : Type 0 where
    node :
        Children
        → Slot
        → Slot
        → HashMap SubscriptionInfo
        → HashMap (List SubscriptionInfo)
        → TrieNode

  pub data Children : Type 0 where
    nil : Children
    cons : Str → TrieNode → Children → Children

  pub data Slot : Type 0 where
    vacant : Slot
    box : TrieNode → Slot

abbrev pub default_node : TrieNode
default_node = node nil vacant vacant [] []

abbrev pub slot_or_default : Slot → TrieNode
slot_or_default vacant = default_node
slot_or_default (box n) = n

abbrev no_entries {ℓ} : {A : Type ℓ} → List A → Bool
no_entries [] = true
no_entries (x ∷ xs) = false

abbrev no_children : Children → Bool
no_children nil = true
no_children (cons k n cs) = false

abbrev is_vacant : Slot → Bool
is_vacant vacant = true
is_vacant (box n) = false

unfoldable pub is_empty : TrieNode → Bool
is_empty (node cs p h subs shared) =
    no_children cs && is_vacant p && is_vacant h && no_entries subs && no_entries shared

-- `children.get(k)`
unfoldable pub child_get : Str → Children → Slot
child_get k nil = vacant
child_get k (cons j n cs) = if bytes_eq j k then box n else child_get k cs

-- `children.entry(k).or_insert_with(default)`, updated by `f`.
unfoldable pub child_entry : Str → (TrieNode → TrieNode) → Children → Children
child_entry k f nil = cons k (f default_node) nil
child_entry k f (cons j n cs) =
    let rest = child_entry k f cs in if bytes_eq j k then cons j (f n) cs else cons j n rest

abbrev pub plus_segment : Str
plus_segment = b'+' ∷ []

abbrev pub hash_segment : Str
hash_segment = b'#' ∷ []

-- The walk of `subscribe`, which makes the nodes it lacks, to the node that `f` changes. It stops
-- behind the first `#`.
unfoldable pub subscribe_at : List Str → (TrieNode → TrieNode) → TrieNode → TrieNode
subscribe_at [] f n = f n
subscribe_at (segment ∷ segments) f (node cs p h subs shared) =
    let below = subscribe_at segments f in
    if bytes_eq segment plus_segment
    then node cs (box (below (slot_or_default p))) h subs shared
    else if bytes_eq segment hash_segment
    then node cs p (box (f (slot_or_default h))) subs shared
    else node (child_entry segment below cs) p h subs shared

-- `list.retain(|s| s.client_id != client_id)`
unfoldable pub retain_others : Str → List SubscriptionInfo → List SubscriptionInfo
retain_others client_id [] = []
retain_others client_id (s ∷ ss) =
    let rest = retain_others client_id ss in
    if bytes_eq s.client_id client_id then rest else s ∷ rest

-- What `subscribe` does to the node.
unfoldable pub add_subscription : Option Str → SubscriptionInfo → TrieNode → TrieNode
add_subscription none info (node cs p h subs shared) =
    node cs p h (insert info.client_id info subs) shared
add_subscription (some group) info (node cs p h subs shared) =
    node cs p h subs
      (entry_list group (λ list. retain_others info.client_id list ++ info ∷ []) shared)

abbrev share_prefix : Str
share_prefix = b'$' ∷ b's' ∷ b'h' ∷ b'a' ∷ b'r' ∷ b'e' ∷ b'/' ∷ []

abbrev shared_parts : Str → List Str → Option Str × Str
shared_parts topic_filter (share ∷ group ∷ filter ∷ []) = (some group, filter)
shared_parts topic_filter _ = (none, topic_filter)

-- `$share/group/filter` in its parts.
unfoldable pub parse_shared_subscription : Str → Option Str × Str
parse_shared_subscription topic_filter =
    if starts_with topic_filter share_prefix
    then shared_parts topic_filter (split_cuts 2 topic_filter)
    else (none, topic_filter)

unfoldable pub subscribe : Str → Str → ℕ → Option ℕ → TrieNode → TrieNode
subscribe client_id topic_filter qos subscription_identifier root =
    let (group, filter) = parse_shared_subscription topic_filter in
    let info : SubscriptionInfo = record {
      client_id = client_id;
      qos = qos;
      subscription_identifier = subscription_identifier;
    } in
    subscribe_at (split_slash filter) (add_subscription group info) root

-- `if empty { slot = None }`: a child that the removal has emptied is dropped.
abbrev pub pruned : TrieNode × Bool → Slot × Bool
pruned (n, removed) = (if is_empty n then vacant else box n, removed)

unfoldable pub unsubscribe_slot : (TrieNode → TrieNode × Bool) → Slot → Slot × Bool
unsubscribe_slot below vacant = (vacant, false)
unsubscribe_slot below (box n) = pruned (below n)

-- `children.remove(k)`
unfoldable pub child_remove : Str → Children → Children
child_remove k nil = nil
child_remove k (cons j n cs) =
    let rest = child_remove k cs in if bytes_eq j k then rest else cons j n rest

abbrev pub put_child : Str → Slot → Children → Children
put_child k vacant cs = child_remove k cs
put_child k (box n) cs = child_entry k (λ _. n) cs

abbrev pub is_some {ℓ} : {A : Type ℓ} → Option A → Bool
is_some none = false
is_some (some a) = true

-- The group's list without the client, dropped when that empties it, and whether it got shorter.
abbrev unshare :
    Str
    → Str
    → HashMap (List SubscriptionInfo)
    → Option (List SubscriptionInfo)
    → HashMap (List SubscriptionInfo) × Bool
unshare client_id group shared none = (shared, false)
unshare client_id group shared (some list) =
    let list' = retain_others client_id list in
    (
      if no_entries list' then remove group shared else insert group list' shared,
      ltb (length list') (length list),
    )

unfoldable pub remove_subscription : Str → Option Str → TrieNode → TrieNode × Bool
remove_subscription client_id none (node cs p h subs shared) =
    (node cs p h (remove client_id subs) shared, is_some (get client_id subs))
remove_subscription client_id (some group) (node cs p h subs shared) =
    let (shared', removed) = unshare client_id group shared (get group shared) in
    (node cs p h subs shared', removed)

-- `unsubscribe_recursive`; its second result is `is_empty` of the node, which `pruned` asks for. The
-- walk does not stop at a `#`.
unfoldable pub unsubscribe_at : List Str → Str → Option Str → TrieNode → TrieNode × Bool
unsubscribe_at [] client_id group n = remove_subscription client_id group n
unsubscribe_at (segment ∷ segments) client_id group (node cs p h subs shared) =
    let below = unsubscribe_at segments client_id group in
    if bytes_eq segment plus_segment
    then (let (p', removed) = unsubscribe_slot below p in (node cs p' h subs shared, removed))
    else if bytes_eq segment hash_segment
    then (let (h', removed) = unsubscribe_slot below h in (node cs p h' subs shared, removed))
    else (let (c', removed) = unsubscribe_slot below (child_get segment cs) in
        (node (put_child segment c' cs) p h subs shared, removed))

unfoldable pub unsubscribe : Str → Str → TrieNode → TrieNode × Bool
unsubscribe client_id topic_filter root =
    let (group, filter) = parse_shared_subscription topic_filter in
    unsubscribe_at (split_slash filter) client_id group root
