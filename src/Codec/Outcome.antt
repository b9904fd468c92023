-- ===== src/Codec/Outcome.antt =====
-- The outcome of a decoding function of src/codec.rs, and readers of a byte slice.
pub mod Safe
use pipistrelle.Prelude.{ℕ, ◌≡◌, refl, List}

pub data CodecError : Type 0 where
  incomplete invalid_varint malformed_packet : CodecError
  unsupported_protocol_version : ℕ → CodecError

-- Rust's `Result`, and two outcomes that are no Rust value: `panic`, a slice index out of range,
-- and `stuck`, a loop of the model out of fuel.
pub data Result {ℓ} (A : Type ℓ) : Type ℓ where
  ok : A → Result A
  err : CodecError → Result A
  panic : Result A
  stuck : Result A

-- A function on `&mut &[u8]`: what it returns, with the slice that it leaves.
abbrev pub Reader {ℓ} : Type ℓ → Type ℓ
Reader A = List ℕ → Result (A × List ℕ)

-- The `?` operator.
infixl 5 ◌>>=◌
unfoldable pub ◌>>=◌ {ℓ κ} : {A : Type ℓ} {B : Type κ} → Result A → (A → Result B) → Result B
panic >>= next = panic
stuck >>= next = stuck
err code >>= next = err code
ok value >>= next = next value

pub bind_ok {ℓ κ} :
    {A : Type ℓ} {B : Type κ} {m : Result A} {a : A} {r : Result B} (f : A → Result B)
    → m ≡ ok a
    → f a ≡ r
    → (m >>= f) ≡ r
unfolding ◌>>=◌
bind_ok f e h = rw e h

pub bind_err {ℓ κ} :
    {A : Type ℓ} {B : Type κ} {m : Result A} {e : CodecError} (f : A → Result B)
    → m ≡ err e
    → (m >>= f) ≡ err e
unfolding ◌>>=◌
bind_err f h = rw h

pub bind_panic {ℓ κ} :
    {A : Type ℓ} {B : Type κ} {m : Result A} (f : A → Result B) → m ≡ panic → (m >>= f) ≡ panic
unfolding ◌>>=◌
bind_panic f h = rw h

-- A chain that returned has returned at its first step.
pub bind-eq-ok {ℓ κ} :
    {A : Type ℓ} {B : Type κ} {last : B} (first : Result A) (next : A → Result B)
    → (first >>= next) ≡ ok last
    → (value : A) × (first ≡ ok value) × (next value ≡ ok last)
unfolding ◌>>=◌
bind-eq-ok panic next returned = cc
bind-eq-ok stuck next returned = cc
bind-eq-ok (err code) next returned = cc
bind-eq-ok (ok value) next returned = (value, refl, returned)
