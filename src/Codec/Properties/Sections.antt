-- ===== src/Codec/Properties/Sections.antt =====
-- A property section as `encode` writes it and `decode` reads it: its length, then its fields.
use pipistrelle.Prelude.{
  ℕ, ◌%◌, ◌^◌, ◌≤◌, ◌<◌, ◌≡◌, refl, ◌∙◌, arith, List, [], ◌∷◌, ◌++◌, append_assoc, length,
  length-append,
}
use pipistrelle.Codec.Outcome.{Reader, ok, bind_ok}
use pipistrelle.Codec.Wire.{IsVarint, slice_to-append, slice_from-append, not_short}
use pipistrelle.Codec.Varint.{encode_varint}
use pipistrelle.Codec.Varint.Bytes.{groups, length-groups, encode_varint_short}
use pipistrelle.Codec.Varint.RoundTrip.{decode_varint-groups}
use pipistrelle.Codec.Properties.{decode_section, decode_properties, push_section}
use pipistrelle.Codec.Properties.Runs.{Runs, Runs-loop}

-- `fields` are the bytes of the fields.
unfoldable pub section_bytes : List ℕ → List ℕ
section_bytes fields = groups 3 (length fields) ++ fields

pub push_section_lem :
    (fields buf : List ℕ)
    → IsVarint (length fields)
    → push_section fields buf ≡ buf ++ section_bytes fields
unfolding push_section section_bytes
push_section_lem fields buf h =
    let small : length fields % 2 ^ 32 ≡ length fields = omega arith in
    rw (small, encode_varint_short (length fields) buf h) (append_assoc buf _ fields)

pub length-section_bytes : (fields : List ℕ) → length fields < length (section_bytes fields)
unfolding section_bytes
length-section_bytes fields =
    omega (arith, length-append (groups 3 (length fields)) fields, length-groups 3 (length fields))

pub push_section-le : (fields buf : List ℕ) → length fields ≤ length (push_section fields buf)
unfolding push_section
push_section-le fields buf =
    omega (arith, length-append (encode_varint (length fields % 2 ^ 32) buf) fields)

module _ {P : Type 0} (field : ℕ → P → Reader P) where
  decode_properties_nonempty :
      (p : P) (buf : List ℕ)
      → 1 ≤ length buf
      → decode_properties field p buf ≡ decode_section field p buf
  unfolding decode_properties
  decode_properties_nonempty p [] h = absurd (omega arith)
  decode_properties_nonempty p (b ∷ bs) h = refl

  -- Where the fields take the loop from the default to `q`, the section is read as `q`.
  pub decode_properties-section_bytes :
      {p q : P} {fields : List ℕ} (rest : List ℕ)
      → Runs field p fields q
      → IsVarint (length fields)
      → decode_properties field p (section_bytes fields ++ rest) ≡ ok (q, rest)
  unfolding section_bytes
  decode_properties-section_bytes {p} {q} {fields} rest r h =
      let prefix : List ℕ = groups 3 (length fields) in
      decode_properties_nonempty p ((prefix ++ fields) ++ rest) (
        omega (
          arith,
          length-groups 3 (length fields),
          length-append (prefix ++ fields) rest,
          length-append prefix fields,
        ))
      ∙ rw (append_assoc prefix fields rest) (
          unfold decode_section in
          bind_ok _ (decode_varint-groups (length fields) (fields ++ rest) h) (
            bind_ok _ (slice_from-append prefix (fields ++ rest)) (
              rw (not_short fields rest) (
                bind_ok _ (slice_to-append fields rest) (
                  bind_ok _ (slice_from-append fields rest)
                    (bind_ok _ (Runs-loop field r) refl))))))
