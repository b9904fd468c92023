-- ===== src/Codec/Properties/Runs.antt =====
-- The property loop of src/codec.rs on what `encode` writes, one written field after the other.
use pipistrelle.Prelude.{
  ℕ, zero, suc, ◌≤◌, ◌≡◌, refl, ◌∙◌, arith, List, [], ◌∷◌, ◌++◌, append_assoc, append-nil, length,
  length-append, All, Option, none, some, OnSome,
}
use pipistrelle.Codec.Outcome.{Reader, ok, bind_ok}
use pipistrelle.Codec.Wire.{
  Wire, IsStr, IsShort, prefixed, read_str-prefixed, write_str_lem, write_u8_lem, read_u8_lem,
}
use pipistrelle.Codec.Write.{write_u8, write_str}
use pipistrelle.Codec.Properties.{
  UserProperty, read_into, read_user_property, properties_loop, push_some, push_user_properties,
}

read_into-bytes :
    {A P : Type 0} (w : Wire A) (put : A → P) (a : A) (rest : List ℕ)
    → w.Valid a
    → read_into w.read put (w.bytes a ++ rest) ≡ ok (put a, rest)
unfolding read_into
read_into-bytes w put a rest h = bind_ok _ (w.read-bytes a rest h) refl

pushed :
    (k v s : List ℕ)
    → IsShort k
    → IsShort v
    → write_str v (write_str k (write_u8 0x26 s)) ≡ s ++ 0x26 ∷ (prefixed k ++ prefixed v)
pushed k v s hk hv =
    write_str_lem v _ hv
    ∙ rw (write_str_lem k _ hk, write_u8_lem)
        (append_assoc (s ++ 0x26 ∷ []) (prefixed k) (prefixed v)
          ∙ append_assoc s (0x26 ∷ []) (prefixed k ++ prefixed v))

module _ {P : Type 0} (field : ℕ → P → Reader P) where
  -- From state `p`, the bytes `s` take the loop to state `q`, whatever follows them.
  pub record Runs (p : P) (s : List ℕ) (q : P) : Type 0 where
    pub at :
        (rest : List ℕ) (fuel : ℕ)
        → length (s ++ rest) ≤ fuel
        → (fuel' : ℕ) × (length rest ≤ fuel')
          × (properties_loop field fuel p (s ++ rest) ≡ properties_loop field fuel' q rest)

  pub Runs-refl : (p : P) → Runs p [] p
  Runs-refl p = record { at = λ rest fuel h. (fuel, h, refl) }

  Runs-trans : {p q r : P} {s t : List ℕ} → Runs p s q → Runs q t r → Runs p (s ++ t) r
  Runs-trans {p} {r} {s} {t} a b = record {
    at = λ rest fuel h.
        let (f, hf, e) = a.at (t ++ rest) fuel (rw (← append_assoc s t rest) h) in
        let (f', hf', e') = b.at rest f hf in (f', hf', rw (append_assoc s t rest) (e ∙ e'));
  }

  -- One property: its identifier's byte, and bytes that the field's reader takes.
  Runs-item :
      (id : ℕ) (bytes : List ℕ) (p q : P)
      → ((rest : List ℕ) → field id p (bytes ++ rest) ≡ ok (q, rest))
      → Runs p (id ∷ bytes) q
  Runs-item id bytes p q takes = record { at = from }
    where
      from :
          (rest : List ℕ) (fuel : ℕ)
          → length ((id ∷ bytes) ++ rest) ≤ fuel
          → (fuel' : ℕ) × (length rest ≤ fuel')
            × (properties_loop field fuel p ((id ∷ bytes) ++ rest)
                ≡ properties_loop field fuel' q rest)
      from rest zero h = absurd (omega arith)
      from rest (suc f) h = (
        f,
        omega (arith, length-append bytes rest),
        unfold properties_loop in
            bind_ok _ (read_u8_lem id (bytes ++ rest)) (bind_ok _ (takes rest) refl),
      )

  pub loop_nil : (fuel : ℕ) (p : P) → properties_loop field fuel p [] ≡ ok p
  unfolding properties_loop
  loop_nil zero p = refl
  loop_nil (suc fuel) p = refl

  -- The whole slice, with fuel enough.
  pub Runs-loop : {p q : P} {s : List ℕ} → Runs p s q → properties_loop field (length s) p s ≡ ok q
  Runs-loop {p} {q} {s} r =
      let (f, hf, e) = r.at [] (length s) (rw append-nil (omega arith)) in
      rw append-nil at e ∙ loop_nil f q

  -- One optional field of `encode`, against the arm of `match` that reads it. `put` gives the state
  -- with that field.
  pub Runs-push_some :
      {A : Type 0} (w : Wire A) (id : ℕ) (v : Option A) (put : Option A → P) {p : P} {s : List ℕ}
      → OnSome w.Valid v
      → ((buf : List ℕ) → field id (put none) buf ≡ read_into w.read (λ a. put (some a)) buf)
      → Runs p s (put none)
      → Runs p (push_some w.write id v s) (put v)
  unfolding push_some
  Runs-push_some w id none put h arm r = r
  Runs-push_some w id (some a) put {p} {s} h arm r =
      rw (w.write_lem a (write_u8 id s) h, write_u8_lem, append_assoc)
        (Runs-trans r (
          Runs-item id (w.bytes a) (put none) (put (some a))
            (λ rest. arm (w.bytes a ++ rest) ∙ read_into-bytes w (λ b. put (some b)) a rest h)))

  user_bytes :
      (put : UserProperty → P) (k v rest : List ℕ)
      → IsStr k
      → IsStr v
      → read_user_property put ((prefixed k ++ prefixed v) ++ rest) ≡ ok (put (k, v), rest)
  unfolding read_user_property
  user_bytes put k v rest hk hv = rw (append_assoc (prefixed k) (prefixed v) rest) (
      bind_ok _ (read_str-prefixed k (prefixed v ++ rest) hk)
        (bind_ok _ (read_str-prefixed v rest hv) refl))

  -- The loop of `encode` over the user properties, behind those in `done`.
  pub Runs-push_user_properties :
      (us done : List UserProperty) (put : List UserProperty → P) {p : P} {s : List ℕ}
      → All (λ u. IsStr u.0 × IsStr u.1) us
      → ((ds : List UserProperty) (buf : List ℕ)
          → field 0x26 (put ds) buf ≡ read_user_property (λ u. put (ds ++ u ∷ [])) buf)
      → Runs p s (put done)
      → Runs p (push_user_properties us s) (put (done ++ us))
  unfolding push_user_properties
  Runs-push_user_properties [] done put h arm r = rw append-nil r
  Runs-push_user_properties ((k, v) ∷ us) done put {p} {s} (h, hs) arm r =
      rw (pushed k v s h.0.1 h.1.1, ← append_assoc done ((k, v) ∷ []) us)
        (Runs-push_user_properties us (done ++ (k, v) ∷ []) put hs arm (
          Runs-trans r (
            Runs-item 0x26 (prefixed k ++ prefixed v) (put done) (put (done ++ (k, v) ∷ []))
              (λ rest. arm done _ ∙ user_bytes (λ u. put (done ++ u ∷ [])) k v rest h.0 h.1))))
