-- ===== src/Config/Tests.antt =====
-- A concrete credentials file of src/config.rs: runs of the code, and the theorems at it.
use pipistrelle.Prelude.{◌≡◌, refl, ◌⊎◌, Bool, true, false, [], ◌∷◌, some}
use pipistrelle.Prelude.Text.{Str, split_slash, bytes_eq}
use pipistrelle.Router.Maps.{get, insert}
use pipistrelle.Router.Filter.{matches}
use pipistrelle.Config.{
  AclRule, UserConfig, load, insert_users, authenticate, authorize, rules_allow, action_allowed,
  topic_matches_acl_filter, acl_loop, read_action, anonymous_access_enabled, to_ascii_lowercase,
}
use pipistrelle.Config.Acl.{topic_matches_acl_filter_lem}
use pipistrelle.Config.Closed.{Entry, authenticate-load, authorize-load}
use mathlib.Core.List.{Mem}

-- The variable's case does not matter.
yes_in_capitals : anonymous_access_enabled (λ s. s) (some (b'Y' ∷ b'e' ∷ b'S' ∷ [])) ≡ true
unfolding to_ascii_lowercase
yes_in_capitals = refl

-- May read the topics of one level.
abbrev plus_rule : AclRule
plus_rule = record { topic = b'+' ∷ []; access = read_action }

abbrev ann : UserConfig
ann = record { username = b'a' ∷ []; password_hash = b'h' ∷ []; acl = plus_rule ∷ [] }

-- A hash is the password itself.
abbrev equal_hash : Str → Str → Bool
equal_hash password password_hash = bytes_eq password password_hash

ann_in : authenticate equal_hash (load true false (some (ann ∷ []))) (b'a' ∷ []) (b'h' ∷ []) ≡ true
unfolding authenticate load insert_users insert get
ann_in = refl

-- `#`, asked for as a subscription, counts as a topic of one level.
hash_authorized :
    authorize (load true false (some (ann ∷ []))) (b'a' ∷ []) (b'#' ∷ []) read_action ≡ true
unfolding authorize load insert_users insert get rules_allow action_allowed topic_matches_acl_filter
    acl_loop split_slash
hash_authorized = refl

-- `a/b`, which `#` matches, is not allowed.
a_b_unauthorized :
    authorize (load true false (some (ann ∷ []))) (b'a' ∷ []) (b'a' ∷ b'/' ∷ b'b' ∷ []) read_action
    ≡ false
unfolding authorize load insert_users insert get rules_allow action_allowed topic_matches_acl_filter
    acl_loop split_slash
a_b_unauthorized = refl

topic_matches_acl_filter_lem_example :
    topic_matches_acl_filter (b'a' ∷ b'/' ∷ b'b' ∷ []) (b'+' ∷ b'/' ∷ b'#' ∷ [])
    ≡ matches (split_slash (b'+' ∷ b'/' ∷ b'#' ∷ [])) (split_slash (b'a' ∷ b'/' ∷ b'b' ∷ []))
topic_matches_acl_filter_lem_example =
    topic_matches_acl_filter_lem (b'a' ∷ b'/' ∷ b'b' ∷ []) (b'+' ∷ b'/' ∷ b'#' ∷ [])

authenticate-load_example :
    ((true ≡ false) × (false ≡ true))
    ⊎ ((user : UserConfig) × Entry (b'a' ∷ []) (ann ∷ []) user
        × (equal_hash (b'h' ∷ []) user.password_hash ≡ true))
authenticate-load_example =
    authenticate-load equal_hash true false (some (ann ∷ [])) (b'a' ∷ []) (b'h' ∷ []) ann_in

authorize-load_example :
    ((true ≡ false) × (false ≡ true))
    ⊎ ((user : UserConfig) × Entry (b'a' ∷ []) (ann ∷ []) user
        × ((rule : AclRule) × Mem rule user.acl
            × (action_allowed rule.access read_action ≡ true)
            × (matches (split_slash rule.topic) (split_slash (b'#' ∷ [])) ≡ true)))
authorize-load_example =
    authorize-load true false (some (ann ∷ [])) (b'a' ∷ []) (b'#' ∷ []) read_action hash_authorized
