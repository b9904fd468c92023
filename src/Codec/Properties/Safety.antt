-- ===== src/Codec/Properties/Safety.antt =====
-- The property readers of src/codec.rs always return, and never index out of range.
use pipistrelle.Prelude.{
  ℕ, zero, suc, ◌≤◌, ◌≡◌, refl, arith, List, [], ◌∷◌, length, length-drop, ltb, ltb→le, drop,
}
use pipistrelle.Codec.Outcome.{Reader, ◌>>=◌}
use pipistrelle.Codec.Outcome.Safe.{
  IsSafe-if, IsSafe-err, Within, Within-bind, Within-le, Within-bind_ok, Within-bind_value,
  Within-if, Returns, Returns-bind, IsSafe,
}
use pipistrelle.Codec.Read.{read_str, read_u8}
use pipistrelle.Codec.Read.Safety.{
  read_u8-IsSafe, read_u16-IsSafe, read_u32-IsSafe, read_varint-IsSafe, read_bytes-IsSafe,
  read_str-IsSafe, slice_from_lem, slice_to_lem, decode_varint-Returns,
}
use pipistrelle.Codec.Varint.{decode_varint}
use pipistrelle.Codec.Varint.Bounds.{decode_varint-read}
use pipistrelle.Codec.Properties.Runs.{loop_nil}
use pipistrelle.Codec.Properties.{
  UserProperty, read_into, read_user_property, properties_loop, decode_section, decode_properties,
}

module _ {P : Type 0} where
  pub read_into-IsSafe :
      {A : Type 0} (read : Reader A) (put : A → P) → IsSafe read → IsSafe (read_into read put)
  unfolding read_into
  read_into-IsSafe read put h = record {
    at = λ buf. Within-bind (length buf) (read buf) _ (h.at buf) (λ a rest l. l);
  }

  pub read_user_property-IsSafe : (put : UserProperty → P) → IsSafe (read_user_property put)
  unfolding read_user_property
  read_user_property-IsSafe put = record {
    at = λ buf. Within-bind (length buf) (read_str buf) _ (read_str-IsSafe.at buf) λ key rest l.
        Within-bind (length buf) (read_str rest) _
          (Within-le (read_str rest) (read_str-IsSafe.at rest) l) (λ val rest' l'. l');
  }

module _ {P : Type 0} (field : ℕ → P → Reader P)
    (safe : (id : ℕ) (p : P) → IsSafe (field id p)) where
  loop_round :
      (fuel b : ℕ) (p : P) (bs : List ℕ)
      → properties_loop field (suc fuel) p (b ∷ bs)
        ≡ (field b p bs >>= λ (p', rest). properties_loop field fuel p' rest)
  unfolding properties_loop read_u8 ◌>>=◌
  loop_round fuel b p bs = refl

  -- The fuel suffices: each round takes a byte.
  properties_loop-Returns :
      (fuel : ℕ) (p : P) (s : List ℕ) → length s ≤ fuel → Returns (properties_loop field fuel p s)
  properties_loop-Returns zero p [] h = rw loop_nil tt
  properties_loop-Returns (suc fuel) p [] h = rw loop_nil tt
  properties_loop-Returns zero p (b ∷ bs) h = absurd (omega arith)
  properties_loop-Returns (suc fuel) p (b ∷ bs) h = rw (loop_round fuel b p bs) (
      Returns-bind (length bs) (field b p bs) _ ((safe b p).at bs)
        (λ p' rest l. properties_loop-Returns fuel p' rest (omega arith)))

  decode_section-Within : (p : P) (buf : List ℕ) → Within (length buf) (decode_section field p buf)
  unfolding decode_section
  decode_section-Within p buf =
      let n : ℕ = length buf in
      Within-bind_value n (decode_varint buf) _ (decode_varint-Returns buf) λ (prop_len, read) e.
        let (_, in_buf) = decode_varint-read buf prop_len read e in
        Within-bind_ok n _ (slice_from_lem read buf in_buf) (
          Within-if n (ltb (length (drop read buf)) prop_len) _ _ (λ _. tt)
            λ enough.
              let fits = ltb→le _ prop_len enough in
              Within-bind_ok n _ (slice_to_lem prop_len (drop read buf) fits) (
                Within-bind_ok n _ (slice_from_lem prop_len (drop read buf) fits) (
                  Within-bind_value n _ _ (properties_loop-Returns _ p _ (omega arith)) λ q _.
                    omega (arith, length-drop prop_len (drop read buf), length-drop read buf))))

  pub decode_properties-IsSafe : (p : P) → IsSafe (decode_properties field p)
  decode_properties-IsSafe p = record { at = within }
    where
      within : (buf : List ℕ) → Within (length buf) (decode_properties field p buf)
      within [] = unfold decode_properties in omega arith
      within (b ∷ bs) = unfold decode_properties in decode_section-Within p (b ∷ bs)

pub ruleset safe_readers = (
  IsSafe-if, IsSafe-err, read_into-IsSafe, read_user_property-IsSafe, read_u8-IsSafe,
  read_u16-IsSafe, read_u32-IsSafe, read_varint-IsSafe, read_str-IsSafe, read_bytes-IsSafe,
)
