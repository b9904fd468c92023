-- ===== src/Config.antt =====
-- Access control: src/config.rs.
pub mod Acl
pub mod Closed
mod Tests
use pipistrelle.Prelude.{
  ℕ, zero, suc, ◌+◌, Bool, true, false, not, ◌&&◌, ◌||◌, ◌==◌, List, [], ◌∷◌, length, get_elem?,
  leb, Option, none, some, if◌then◌else◌,
}
use pipistrelle.Prelude.Text.{Str, bytes_eq, split_slash}
use pipistrelle.Router.Maps.{HashMap, get, insert}
use pipistrelle.Router.Trie.{plus_segment, hash_segment}

-- `access` is the text of the file: `read`, `write` or `readwrite`, and anything else allows nothing.
pub record AclRule : Type 0 where
  pub topic : Str
  pub access : Str

pub record UserConfig : Type 0 where
  pub username : Str
  pub password_hash : Str
  pub acl : List AclRule

-- `none` is the anonymous mode.
pub record AuthConfig : Type 0 where
  pub users : Option (HashMap UserConfig)

abbrev pub closed : AuthConfig
closed = record { users = some [] }

abbrev pub anonymous : AuthConfig
anonymous = record { users = none }

unfoldable pub insert_users : List UserConfig → HashMap UserConfig → HashMap UserConfig
insert_users [] map = map
insert_users (user ∷ users) map = insert_users users (insert user.username user map)

abbrev ascii_lower : ℕ → ℕ
ascii_lower c = if leb b'A' c && leb c b'Z' then c + 32 else c

unfoldable pub to_ascii_lowercase : Str → Str
to_ascii_lowercase [] = []
to_ascii_lowercase (c ∷ s) = ascii_lower c ∷ to_ascii_lowercase s

-- `1`, `true`, `yes` or `on`
abbrev pub says_yes : Str → Bool
says_yes value =
    bytes_eq value (b'1' ∷ [])
    || bytes_eq value (b't' ∷ b'r' ∷ b'u' ∷ b'e' ∷ [])
    || bytes_eq value (b'y' ∷ b'e' ∷ b's' ∷ [])
    || bytes_eq value (b'o' ∷ b'n' ∷ [])

-- The variable of the environment, if it is set; `trim` is the standard library's.
abbrev pub anonymous_access_enabled : (trim : Str → Str) → Option Str → Bool
anonymous_access_enabled trim none = false
anonymous_access_enabled trim (some value) = says_yes (to_ascii_lowercase (trim value))

-- `exists` asks the system; `is_enabled` is what `anonymous_access_enabled` says; `content` is what
-- opening, reading and parsing the file give, `none` where one of them fails.
unfoldable pub load : (exists is_enabled : Bool) (content : Option (List UserConfig)) → AuthConfig
load false true content = anonymous
load false false content = closed
load true is_enabled none = closed
load true is_enabled (some users) = record { users = some (insert_users users []) }

-- The rest of the loop's body: `rest` is what the rounds after it say.
abbrev pub level_matches : Str → Option Str → Bool → Bool
level_matches level none rest = false
level_matches level (some topic_level) rest =
    if not (bytes_eq level plus_segment) && not (bytes_eq level topic_level) then false else rest

-- The loop over the levels of the filter from the `i`th on.
unfoldable pub acl_loop : List Str → ℕ → List Str → Bool
acl_loop [] i topic_levels = i == length topic_levels
acl_loop (level ∷ filter_levels) i topic_levels =
    let rest = acl_loop filter_levels (i + 1) topic_levels in
    if bytes_eq level hash_segment
    then true
    else level_matches level (get_elem? topic_levels i) rest

unfoldable pub topic_matches_acl_filter : Str → Str → Bool
topic_matches_acl_filter topic filter = acl_loop (split_slash filter) 0 (split_slash topic)

abbrev pub read_action : Str
read_action = b'r' ∷ b'e' ∷ b'a' ∷ b'd' ∷ []

abbrev pub write_action : Str
write_action = b'w' ∷ b'r' ∷ b'i' ∷ b't' ∷ b'e' ∷ []

abbrev pub readwrite : Str
readwrite = b'r' ∷ b'e' ∷ b'a' ∷ b'd' ∷ b'w' ∷ b'r' ∷ b'i' ∷ b't' ∷ b'e' ∷ []

unfoldable pub action_allowed : Str → Str → Bool
action_allowed access action =
    if bytes_eq access readwrite
    then true
    else if bytes_eq access read_action
    then bytes_eq action read_action
    else if bytes_eq access write_action
    then bytes_eq action write_action
    else false

-- The loop over the rules.
unfoldable pub rules_allow : List AclRule → Str → Str → Bool
rules_allow [] topic action = false
rules_allow (rule ∷ rules) topic action =
    let rest = rules_allow rules topic action in
    if action_allowed rule.access action && topic_matches_acl_filter topic rule.topic
    then true
    else rest

-- What `test` says of the user's entry; a user without one is refused.
abbrev pub user_passes : (UserConfig → Bool) → Option UserConfig → Bool
user_passes test none = false
user_passes test (some user) = test user

-- `match &self.users`, where the anonymous mode lets everyone pass.
abbrev pub users_pass : (UserConfig → Bool) → Str → Option (HashMap UserConfig) → Bool
users_pass test username none = true
users_pass test username (some users) = user_passes test (get username users)

unfoldable pub authorize : AuthConfig → Str → Str → Str → Bool
authorize self username topic action =
    users_pass (λ user. rules_allow user.acl topic action) username self.users

-- `verify_password` asks the argon2 crate.
unfoldable pub authenticate : (verify_password : Str → Str → Bool) → AuthConfig → Str → Str → Bool
authenticate verify_password self username password =
    users_pass (λ user. verify_password password user.password_hash) username self.users
