-- ===== src/Session/Turns.antt =====
-- The members of a shared group take turns in `route_publish` of src/session.rs.
use native.Mathlib.Nat.{mod-lt, mod-eq_of_lt, mod-add-mod, add-mod_left}
use pipistrelle.Prelude.{
  List, [], ◌∷◌, length, get_elem?, get_elem?_lt, leb, Bool-cases, inl, inr, ℕ, zero, suc, ◌+◌, ◌-◌,
  ◌%◌, ◌^◌, ◌≤◌, ◌<◌, ◌≡◌, refl, sym, ◌∙◌, ap, arith, some,
}
use pipistrelle.Prelude.Text.{Str, bytes_eq_refl}
use pipistrelle.Router.Maps.{HashMap, get, get-insert}
use pipistrelle.Session.Deliver.{
  Message, send_group, send_publish_to_client, counter_of, next_index,
}
use pipistrelle.Session.State.{BrokerState}
use pipistrelle.Router.Trie.{SubscriptionInfo}

-- The counters after `k` messages for the group.
unfoldable pub counters_after : Str → ℕ → HashMap ℕ → HashMap ℕ
counters_after group zero counters = counters
counters_after group (suc k) counters = (next_index group (counters_after group k counters)).1

counter_after :
    (group : Str) (k : ℕ) (counters : HashMap ℕ)
    → counter_of (get group counters) + k < 2 ^ 64
    → counter_of (get group (counters_after group k counters)) ≡ counter_of (get group counters) + k
unfolding counters_after next_index
counter_after group zero counters h = omega arith
counter_after group (suc k) counters h =
    rw
      (
        get-insert group group
            ((counter_of (get group (counters_after group k counters)) + 1) % 2 ^ 64)
            (counters_after group k counters),
        bytes_eq_refl group,
      )
      (omega (arith, counter_after group k counters (omega arith)))

turn : (c n i : ℕ) → i < n → (k : ℕ) × (k < n) × ((c + k) % n ≡ i)
turn c n i h =
    let r_lt : c % n < n = mod-lt c (omega arith) in
    let exact : i % n ≡ i = mod-eq_of_lt h in
    elim (Bool-cases (leb (c % n) i)) [
      | inl e ↦
          let up_to : c % n ≤ i = ground arith in
          let sum : c % n + (i - c % n) ≡ i = omega arith in
          (i - c % n, omega arith, sym (mod-add-mod c n (i - c % n)) ∙ ap (λ x. x % n) sum ∙ exact)
      | inr e ↦
          let past : i < c % n = ground arith in
          let sum : c % n + (n - c % n + i) ≡ n + i = omega arith in
          (
            n - c % n + i,
            omega arith,
            sym (mod-add-mod c n (n - c % n + i)) ∙ ap (λ x. x % n) sum ∙ add-mod_left n i ∙ exact,
          )
    ]

next_index_turn :
    (group : Str) (counters : HashMap ℕ) (n i : ℕ)
    → i < n
    → counter_of (get group counters) + n ≤ 2 ^ 64
    → (k : ℕ) × (k < n) × ((next_index group (counters_after group k counters)).0 % n ≡ i)
unfolding next_index
next_index_turn group counters n i h room =
    let (k, below, at_i) = turn (counter_of (get group counters)) n i h in
    (k, below, rw (counter_after group k counters (omega arith)) at_i)

-- To whom the group's message goes.
send_group_selects :
    (m : Message) (group : Str) (subs : List SubscriptionInfo) (sub : SubscriptionInfo)
    (state : BrokerState) (i : ℕ)
    → get_elem? subs i ≡ some sub
    → (next_index group state.shared_group_counters).0 % length subs ≡ i
    → send_group m group subs state
      ≡ send_publish_to_client m sub.client_id sub.subscription_identifier (record state {
        shared_group_counters = (next_index group state.shared_group_counters).1;
      })
unfolding send_group
send_group_selects m group [] sub state i e at_i = cc
send_group_selects m group (x ∷ subs) sub state i e at_i = rw (at_i, e) refl

-- Among the next `n` messages for a group of `n` members there is one that goes to a given member and
-- to no other, if the group's counter does not wrap around 2^64 in between: the one that finds the counters
-- as `k < n` messages for the group have left them.
pub send_group_turn :
    (m : Message) (group : Str) (subs : List SubscriptionInfo) (sub : SubscriptionInfo)
    (state : BrokerState) (i : ℕ)
    → get_elem? subs i ≡ some sub
    → counter_of (get group state.shared_group_counters) + length subs ≤ 2 ^ 64
    → (k : ℕ) × (k < length subs)
      × (send_group m group subs (record state {
        shared_group_counters = counters_after group k state.shared_group_counters;
      })
          ≡ send_publish_to_client m sub.client_id sub.subscription_identifier (record state {
            shared_group_counters = counters_after group (suc k) state.shared_group_counters;
          }))
unfolding counters_after
send_group_turn m group subs sub state i e room =
    let counters = state.shared_group_counters in
    let (k, below, at_i) =
      next_index_turn group counters (length subs) i (get_elem?_lt i subs e) room in
    (
      k,
      below,
      send_group_selects m group subs sub
          (record state { shared_group_counters = counters_after group k counters }) i e at_i,
    )
