-- ===== src/Config/Closed.antt =====
-- Who gets in by src/config.rs.
use pipistrelle.Prelude.{
  ◌≡◌, refl, sym, Bool, true, false, List, [], ◌∷◌, Option, none, some, Bool-cases, ◌&&◌, ◌⊎◌, inl,
  inr, arith,
}
use pipistrelle.Prelude.Text.{Str, bytes_eq, bytes_eq→eq, split_slash}
use pipistrelle.Router.Maps.{HashMap, get, insert, get-insert}
use pipistrelle.Router.Filter.{matches}
use pipistrelle.Config.Acl.{topic_matches_acl_filter_lem}
use pipistrelle.Config.{
  AclRule, rules_allow, action_allowed, authorize, users_pass, topic_matches_acl_filter, UserConfig,
  insert_users, load, user_passes, authenticate,
}
use mathlib.Core.List.{Mem, mem-cons_self, mem-cons_of_mem}

-- The entries of a file that could be read.
abbrev pub entries : Option (List UserConfig) → List UserConfig
entries none = []
entries (some users) = users

-- An entry for the name in the list.
abbrev pub Entry : Str → List UserConfig → UserConfig → Type 0
Entry username users user = Mem user users × (user.username ≡ username)

get-insert_users :
    (k : Str) (users : List UserConfig) (map : HashMap UserConfig) (user : UserConfig)
    → get k (insert_users users map) ≡ some user
    → Entry k users user ⊎ (get k map ≡ some user)
unfolding insert_users
get-insert_users k [] map user e = inr e
get-insert_users k (u ∷ users) map user e =
    elim (get-insert_users k users (insert u.username u map) user e) [
      | inl (m, same) ↦ inl (mem-cons_of_mem u m, same)
      | inr found ↦ elim (Bool-cases (bytes_eq u.username k)) [
        | inl b ↦
            let put : some u ≡ some user = rw (get-insert k u.username u map, b) at found in
            let same : u ≡ user = cc in
            inl (rw (sym same) (mem-cons_self, bytes_eq→eq u.username k b))
        | inr b ↦ inr (rw (get-insert k u.username u map, b) at found)
      ]
    ]

Option-cases {ℓ} : {A : Type ℓ} (o : Option A) → (o ≡ none) ⊎ ((a : A) × (o ≡ some a))
Option-cases none = inl refl
Option-cases (some a) = inr (a, refl)

and_true : (a b : Bool) → (a && b) ≡ true → (a ≡ true) × (b ≡ true)
and_true a b h = ground arith

refused : (test : UserConfig → Bool) → user_passes test none ≡ true → ⊥
refused test e = ground arith

-- Who passes a test of users: anyone in the anonymous mode, otherwise a user of the file.
users_pass-load :
    (test : UserConfig → Bool) (exists anonymous_enabled : Bool)
    (content : Option (List UserConfig)) (username : Str)
    → users_pass test username (load exists anonymous_enabled content).users ≡ true
    → ((exists ≡ false) × (anonymous_enabled ≡ true))
      ⊎ ((user : UserConfig) × Entry username (entries content) user × (test user ≡ true))
unfolding load get
users_pass-load test false true content username e = inl (refl, refl)
users_pass-load test false false content username e = absurd (ground arith)
users_pass-load test true anonymous_enabled none username e = absurd (ground arith)
users_pass-load test true anonymous_enabled (some users) username e =
    elim (Option-cases (get username (insert_users users []))) [
      | inl gone ↦ absurd (refused test (rw gone at e))
      | inr (user, is) ↦ elim (get-insert_users username users [] user is) [
        | inl entry ↦ inr (user, entry, rw is at e)
        | inr empty ↦ absurd (ground (arith, empty))
      ]
    ]

-- A client is let in only where there is no credentials file and the anonymous mode is on, or by the
-- password of an entry of the file with its user name. In particular a file that cannot be opened, read
-- or parsed lets nobody in.
pub authenticate-load :
    (verify_password : Str → Str → Bool) (exists anonymous_enabled : Bool)
    (content : Option (List UserConfig)) (username password : Str)
    → authenticate verify_password (load exists anonymous_enabled content) username password ≡ true
    → ((exists ≡ false) × (anonymous_enabled ≡ true))
      ⊎ ((user : UserConfig) × Entry username (entries content) user
          × (verify_password password user.password_hash ≡ true))
unfolding authenticate
authenticate-load verify_password exists anonymous_enabled content username password e =
    users_pass-load _ exists anonymous_enabled content username e

rules_allow-Mem :
    (rules : List AclRule) (topic action : Str)
    → rules_allow rules topic action ≡ true
    → (rule : AclRule) × Mem rule rules
      × (action_allowed rule.access action ≡ true)
      × (matches (split_slash rule.topic) (split_slash topic) ≡ true)
unfolding rules_allow
rules_allow-Mem [] topic action e = absurd (ground arith)
rules_allow-Mem (rule ∷ rules) topic action e =
    elim (Bool-cases
      (action_allowed rule.access action && topic_matches_acl_filter topic rule.topic)) [
        | inl b ↦
            let both = and_true _ _ b in
            (
              rule,
              mem-cons_self,
              both.0,
              rw (topic_matches_acl_filter_lem topic rule.topic) at both.1,
            )
        | inr b ↦
            let (found, m, allowed, fits) = rules_allow-Mem rules topic action (rw b at e) in
            (found, mem-cons_of_mem rule m, allowed, fits)
      ]

-- An action on a topic is allowed only where there is no credentials file and the anonymous mode is on,
-- or by a rule of the user's entry in the file that grants the action and whose pattern matches the
-- topic.
pub authorize-load :
    (exists anonymous_enabled : Bool) (content : Option (List UserConfig))
    (username topic action : Str)
    → authorize (load exists anonymous_enabled content) username topic action ≡ true
    → ((exists ≡ false) × (anonymous_enabled ≡ true))
      ⊎ ((user : UserConfig) × Entry username (entries content) user
          × ((rule : AclRule) × Mem rule user.acl
              × (action_allowed rule.access action ≡ true)
              × (matches (split_slash rule.topic) (split_slash topic) ≡ true)))
unfolding authorize
authorize-load exists anonymous_enabled content username topic action e =
    elim (users_pass-load _ exists anonymous_enabled content username e) [
      | inl anyone ↦ inl anyone
      | inr (user, entry, allowed) ↦
          inr (user, entry, rules_allow-Mem user.acl topic action allowed)
    ]
