-- ===== src/Router/Maps.antt =====
-- `HashMap<String, V>` as src/router.rs and src/config.rs use it: `get`, `insert`, `remove`, `values`
-- and `entry(..).or_default()`.
use mathlib.Core.List.{Mem, mem-cons_self, mem-cons_of_mem}
use pipistrelle.Prelude.Text.{bytes_eq_refl, Str, bytes_eq, bytes_eq→eq}
use pipistrelle.Prelude.{
  refl, sym, ap, All, true, false, ◌≡◌, Bool, Bool-cases, inl, inr, List, [], ◌∷◌, Option, none,
  some, if◌then◌else◌,
}

abbrev pub HashMap {ℓ} : Type ℓ → Type ℓ
HashMap V = List (Str × V)

module _ {ℓ} {V : Type ℓ} where
  unfoldable pub get : Str → HashMap V → Option V
  get k [] = none
  get k ((j, v) ∷ m) = if bytes_eq j k then some v else get k m

  unfoldable pub insert : Str → V → HashMap V → HashMap V
  insert k v [] = (k, v) ∷ []
  insert k v ((j, w) ∷ m) =
      let rest = insert k v m in if bytes_eq j k then (k, v) ∷ m else (j, w) ∷ rest

  unfoldable pub remove : Str → HashMap V → HashMap V
  remove k [] = []
  remove k ((j, v) ∷ m) = let rest = remove k m in if bytes_eq j k then rest else (j, v) ∷ rest

  -- The list's order stands for one that `HashMap` leaves open; in the source an insertion that makes the
  -- table grow may put the other values into another order.
  abbrev pub values : HashMap V → List V
  values [] = []
  values ((k, v) ∷ m) = v ∷ values m

-- `entry(k).or_default()` of a map of lists, updated by `f`.
unfoldable pub entry_list {ℓ} :
    {A : Type ℓ} → Str → (List A → List A) → HashMap (List A) → HashMap (List A)
entry_list k f [] = (k, f []) ∷ []
entry_list k f ((j, xs) ∷ m) =
    let rest = entry_list k f m in if bytes_eq j k then (j, f xs) ∷ m else (j, xs) ∷ rest

if_if {ℓ} :
    {A : Type ℓ} (b : Bool) (x y z : A)
    → (if b then x else z) ≡ (if b then x else if b then y else z)
if_if true x y z = refl
if_if false x y z = refl

unequal : (i j k : Str) → bytes_eq i j ≡ false → bytes_eq j k ≡ true → bytes_eq i k ≡ false
unequal i j k e f = rw (sym (bytes_eq→eq j k f)) e

module _ {ℓ} {V : Type ℓ} where
  pub get-insert :
      (k j : Str) (v : V) (m : HashMap V)
      → get k (insert j v m) ≡ (if bytes_eq j k then some v else get k m)
  unfolding get insert
  get-insert k j v [] = refl
  get-insert k j v ((i, w) ∷ m) = elim (Bool-cases (bytes_eq i j)) [
    | inl e ↦ rw (e, bytes_eq→eq i j e) (if_if (bytes_eq j k) (some v) (some w) (get k m))
    | inr e ↦ elim (Bool-cases (bytes_eq j k)) [
      | inl f ↦ rw (e, f, unequal i j k e f) (rw f at (get-insert k j v m))
      | inr f ↦
          rw (e, f) (ap (λ r. if bytes_eq i k then some w else r) (rw f at (get-insert k j v m)))
    ]
  ]

  -- A new entry is taken out again.
  pub remove-insert :
      (k : Str) (v : V) (m : HashMap V) → get k m ≡ none → remove k (insert k v m) ≡ m
  unfolding get insert remove
  remove-insert k v [] h = rw (bytes_eq_refl k) refl
  remove-insert k v ((j, w) ∷ m) h = elim (Bool-cases (bytes_eq j k)) [
    | inl e ↦ (let there : some w ≡ none = rw e at h in cc)
    | inr e ↦ rw e (rw e (ap (λ l. (j, w) ∷ l) (remove-insert k v m (rw e at h))))
  ]

  -- A new value is among the values.
  pub mem-values-insert : (k : Str) (v : V) (m : HashMap V) → Mem v (values (insert k v m))
  unfolding insert
  mem-values-insert k v [] = mem-cons_self
  mem-values-insert k v ((j, w) ∷ m) = elim (Bool-cases (bytes_eq j k)) [
    | inl e ↦ rw e mem-cons_self
    | inr e ↦ rw e (mem-cons_of_mem w (mem-values-insert k v m))
  ]

  -- What holds of all entries, after a change of the map.
  pub All-insert {κ} :
      (P : Str × V → Type κ) (k : Str) (v : V) (m : HashMap V)
      → All P m
      → P (k, v)
      → All P (insert k v m)
  unfolding insert
  All-insert P k v [] a p = (p, tt)
  All-insert P k v ((j, w) ∷ m) a p = elim (Bool-cases (bytes_eq j k)) [
    | inl e ↦ rw e (p, a.1)
    | inr e ↦ rw e (a.0, All-insert P k v m a.1 p)
  ]

  pub All-remove {κ} :
      (P : Str × V → Type κ) (k : Str) (m : HashMap V) → All P m → All P (remove k m)
  unfolding remove
  All-remove P k [] a = tt
  All-remove P k ((j, w) ∷ m) a = elim (Bool-cases (bytes_eq j k)) [
    | inl e ↦ rw e (All-remove P k m a.1)
    | inr e ↦ rw e (a.0, All-remove P k m a.1)
  ]

  pub All-get {κ} :
      (P : Str × V → Type κ) (k : Str) (m : HashMap V) {v : V}
      → All P m
      → get k m ≡ some v
      → P (k, v)
  unfolding get
  All-get P k [] a e = cc
  All-get P k ((j, w) ∷ m) {v} a e = elim (Bool-cases (bytes_eq j k)) [
    | inl b ↦
        let here : some w ≡ some v = rw b at e in
        let same : w ≡ v = cc in rw (← bytes_eq→eq j k b, ← same) a.0
    | inr b ↦ All-get P k m a.1 (rw b at e)
  ]

  pub get-remove : (k : Str) (m : HashMap V) → get k (remove k m) ≡ none
  unfolding get remove
  get-remove k [] = refl
  get-remove k ((j, w) ∷ m) = elim (Bool-cases (bytes_eq j k)) [
    | inl e ↦ rw e (get-remove k m)
    | inr e ↦ rw e (rw e (get-remove k m))
  ]
