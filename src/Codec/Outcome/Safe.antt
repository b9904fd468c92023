-- ===== src/Codec/Outcome/Safe.antt =====
-- Readers that always return and never index out of range, one rule for each way to build one.
use pipistrelle.Prelude.{
  ℕ, ◌≤◌, ◌≡◌, ◌⊎◌, inl, inr, refl, List, length, Bool, true, false, if◌then◌else◌, arith,
}
use pipistrelle.Codec.Outcome.{CodecError, Result, Reader, ok, err, panic, stuck, ◌>>=◌}

-- The outcome is a value or an error, and of `n` bytes no more are left than there were.
abbrev pub Within : {A : Type 0} → ℕ → Result (A × List ℕ) → Type 0
Within n (ok (a, rest)) = length rest ≤ n
Within n (err e) = Unit
Within n panic = ⊥
Within n stuck = ⊥

pub record IsSafe {A : Type 0} (m : Reader A) : Type 0 where
  pub at : (buf : List ℕ) → Within (length buf) (m buf)

pub IsSafe-if :
    {A : Type 0} {m n : Reader A} (b : Bool) → IsSafe m → IsSafe n → IsSafe (if b then m else n)
IsSafe-if true hm hn = hm
IsSafe-if false hm hn = hn

pub IsSafe-err : {A : Type 0} (e : CodecError) → IsSafe {A = A} (λ buf. err e)
IsSafe-err e = record { at = λ buf. tt }

-- A result, whatever it holds.
abbrev pub Returns : {A : Type 0} → Result A → Type 0
Returns (ok a) = Unit
Returns (err e) = Unit
Returns panic = ⊥
Returns stuck = ⊥

-- What a chain of readers leaves is no longer than what the first left.
pub Within-bind :
    {A B : Type 0} (n : ℕ) (m : Result (A × List ℕ)) (f : A × List ℕ → Result (B × List ℕ))
    → Within n m
    → ((a : A) (rest : List ℕ) → length rest ≤ n → Within n (f (a, rest)))
    → Within n (m >>= f)
unfolding ◌>>=◌
Within-bind n (ok (a, rest)) f h k = k a rest h
Within-bind n (err e) f h k = tt
Within-bind n panic f h k = elim h [ ]
Within-bind n stuck f h k = elim h [ ]

pub Within-le : {A : Type 0} (m : Result (A × List ℕ)) {j n : ℕ} → Within j m → j ≤ n → Within n m
Within-le (ok (a, rest)) h l = omega arith
Within-le (err e) h l = tt
Within-le panic h l = elim h [ ]
Within-le stuck h l = elim h [ ]

pub Returns-bind :
    {A B : Type 0} (n : ℕ) (m : Result (A × List ℕ)) (f : A × List ℕ → Result B)
    → Within n m
    → ((a : A) (rest : List ℕ) → length rest ≤ n → Returns (f (a, rest)))
    → Returns (m >>= f)
unfolding ◌>>=◌
Returns-bind n (ok (a, rest)) f h k = k a rest h
Returns-bind n (err e) f h k = tt
Returns-bind n panic f h k = elim h [ ]
Returns-bind n stuck f h k = elim h [ ]

-- A step that returns a plain value, known or not.
pub Within-bind_ok :
    {A B : Type 0} (n : ℕ) {m : Result A} {a : A} (f : A → Result (B × List ℕ))
    → m ≡ ok a
    → Within n (f a)
    → Within n (m >>= f)
unfolding ◌>>=◌
Within-bind_ok n f e h = rw e h

pub Within-bind_value :
    {A B : Type 0} (n : ℕ) (m : Result A) (f : A → Result (B × List ℕ))
    → Returns m
    → ((a : A) → m ≡ ok a → Within n (f a))
    → Within n (m >>= f)
unfolding ◌>>=◌
Within-bind_value n (ok a) f r k = k a refl
Within-bind_value n (err e) f r k = tt
Within-bind_value n panic f r k = elim r [ ]
Within-bind_value n stuck f r k = elim r [ ]

pub Within-if :
    {A : Type 0} (n : ℕ) (b : Bool) (r s : Result (A × List ℕ))
    → (b ≡ true → Within n r)
    → (b ≡ false → Within n s)
    → Within n (if b then r else s)
Within-if n true r s h k = h refl
Within-if n false r s h k = k refl

pub Returns-bind_value :
    {A B : Type 0} (m : Result A) (f : A → Result B)
    → Returns m
    → ((a : A) → m ≡ ok a → Returns (f a))
    → Returns (m >>= f)
unfolding ◌>>=◌
Returns-bind_value (ok a) f r k = k a refl
Returns-bind_value (err e) f r k = tt
Returns-bind_value panic f r k = elim r [ ]
Returns-bind_value stuck f r k = elim r [ ]

pub Returns-if :
    {A : Type 0} (b : Bool) (r s : Result A)
    → (b ≡ true → Returns r)
    → (b ≡ false → Returns s)
    → Returns (if b then r else s)
Returns-if true r s h k = h refl
Returns-if false r s h k = k refl

pub Returns-cases :
    {A : Type 0} (r : Result A)
    → Returns r
    → ((a : A) × (r ≡ ok a)) ⊎ ((e : CodecError) × (r ≡ err e))
Returns-cases (ok a) h = inl (a, refl)
Returns-cases (err e) h = inr (e, refl)
Returns-cases panic h = elim h [ ]
Returns-cases stuck h = elim h [ ]

pub Returns-read :
    {A B : Type 0} {m : Reader A} (safe : IsSafe m) (buf : List ℕ) (f : A × List ℕ → Result B)
    → ((a : A) (rest : List ℕ) → Returns (f (a, rest)))
    → Returns (m buf >>= f)
Returns-read {m} safe buf f k =
    Returns-bind (length buf) (m buf) f (safe.at buf) (λ a rest _. k a rest)

-- An outcome with fuel left: a loop of the model has ended as the code's does.
abbrev pub Halts : {A : Type 0} → Result A → Type 0
Halts (ok a) = Unit
Halts (err e) = Unit
Halts panic = Unit
Halts stuck = ⊥

pub Returns→Halts : {A : Type 0} (r : Result A) → Returns r → Halts r
Returns→Halts (ok a) h = tt
Returns→Halts (err e) h = tt
Returns→Halts panic h = tt
Returns→Halts stuck h = h

pub Halts-bind :
    {A B : Type 0} (m : Result A) (f : A → Result B)
    → Halts m
    → ((a : A) → Halts (f a))
    → Halts (m >>= f)
unfolding ◌>>=◌
Halts-bind (ok a) f h k = k a
Halts-bind (err e) f h k = tt
Halts-bind panic f h k = tt
Halts-bind stuck f h k = h

Within→Halts : {A : Type 0} (n : ℕ) (r : Result (A × List ℕ)) → Within n r → Halts r
Within→Halts n (ok a) h = tt
Within→Halts n (err e) h = tt
Within→Halts n panic h = elim h [ ]
Within→Halts n stuck h = elim h [ ]

pub Halts-read :
    {A B : Type 0} {m : Reader A} (safe : IsSafe m) (buf : List ℕ) (f : A × List ℕ → Result B)
    → ((a : A) (rest : List ℕ) → Halts (f (a, rest)))
    → Halts (m buf >>= f)
Halts-read {m} safe buf f k =
    Halts-bind (m buf) f (Within→Halts (length buf) (m buf) (safe.at buf)) (λ (a, rest). k a rest)

pub Halts-if :
    {A : Type 0} (b : Bool) (r s : Result A) → Halts r → Halts s → Halts (if b then r else s)
Halts-if true r s h k = h
Halts-if false r s h k = k
