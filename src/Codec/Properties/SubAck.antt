-- ===== src/Codec/Properties/SubAck.antt =====
-- `SubAckProperties` of src/codec.rs: `decode` and `encode`.
use pipistrelle.Prelude.{
  ℕ, ◌≡◌, ◌≤◌, length, refl, List, [], ◌∷◌, ◌++◌, none, some, OnSome, All, ◌==◌, if◌then◌else◌,
}
use pipistrelle.Codec.Outcome.{Reader, ok, err, malformed_packet}
use pipistrelle.Codec.Outcome.Safe.{IsSafe}
use pipistrelle.Codec.Read.{read_str}
use pipistrelle.Codec.Write.{write_str}
use pipistrelle.Codec.Wire.{IsStr, IsVarint, str}
use pipistrelle.Codec.Packet.{SubAckProperties}
use pipistrelle.Codec.Properties.{
  read_into, read_user_property, decode_properties, push_some, push_user_properties, push_section,
}
use pipistrelle.Codec.Properties.Runs.{Runs, Runs-refl, Runs-push_some, Runs-push_user_properties}
use pipistrelle.Codec.Properties.Safety.{safe_readers, decode_properties-IsSafe}
use pipistrelle.Codec.Properties.Sections.{
  section_bytes, decode_properties-section_bytes, push_section_lem, push_section-le,
}

abbrev pub no_sub_ack_properties : SubAckProperties
no_sub_ack_properties = record { reason_string = none; user_properties = [] }

-- The arms of `match prop_id`.
unfoldable pub sub_ack_property : ℕ → SubAckProperties → Reader SubAckProperties
sub_ack_property prop_id props =
    if prop_id == 0x1f
    then read_into read_str (λ v. record props { reason_string = some v })
    else if prop_id == 0x26
    then read_user_property
        (λ u. record props { user_properties = props.user_properties ++ u ∷ [] })
    else λ prop_slice. err malformed_packet

unfoldable pub decode_sub_ack_properties : Reader SubAckProperties
decode_sub_ack_properties = decode_properties sub_ack_property no_sub_ack_properties

-- What `encode` collects in `temp_buf`.
unfoldable pub sub_ack_fields : SubAckProperties → List ℕ
sub_ack_fields props =
    let t0 = push_some write_str 0x1f props.reason_string [] in
    push_user_properties props.user_properties t0

unfoldable pub encode_sub_ack_properties : SubAckProperties → List ℕ → List ℕ
encode_sub_ack_properties props buf = push_section (sub_ack_fields props) buf

-- Properties that the format can carry: numbers of the fields' widths, and short strings.
pub record IsSubAckProperties (props : SubAckProperties) : Type 0 where
  pub reason_string : OnSome IsStr props.reason_string
  pub user_properties : All (λ u. IsStr u.0 × IsStr u.1) props.user_properties

-- The loop reads the fields back, from the default.
pub sub_ack_fields-Runs :
    (props : SubAckProperties)
    → IsSubAckProperties props
    → Runs sub_ack_property no_sub_ack_properties (sub_ack_fields props) props
unfolding sub_ack_fields sub_ack_property
sub_ack_fields-Runs props h =
    let r = Runs-refl sub_ack_property no_sub_ack_properties in
    let p0 : SubAckProperties = no_sub_ack_properties in
    let r =
      Runs-push_some sub_ack_property str 0x1f props.reason_string
        (λ o. record p0 { reason_string = o }) h.reason_string (λ buf. refl) r in
    let p1 : SubAckProperties = record p0 { reason_string = props.reason_string } in
    Runs-push_user_properties sub_ack_property props.user_properties []
      (λ us. record p1 { user_properties = us }) h.user_properties (λ us buf. refl) r

pub sub_ack_property-IsSafe :
    (id : ℕ) (props : SubAckProperties) → IsSafe (sub_ack_property id props)
unfolding sub_ack_property
sub_ack_property-IsSafe id props = search safe_readers depth 40

pub decode_sub_ack_properties-section_bytes :
    (props : SubAckProperties) (rest : List ℕ)
    → IsSubAckProperties props
    → IsVarint (length (sub_ack_fields props))
    → decode_sub_ack_properties (section_bytes (sub_ack_fields props) ++ rest) ≡ ok (props, rest)
unfolding decode_sub_ack_properties
decode_sub_ack_properties-section_bytes props rest h fits =
    decode_properties-section_bytes sub_ack_property rest (sub_ack_fields-Runs props h) fits

pub encode_sub_ack_properties_lem :
    (props : SubAckProperties) (buf : List ℕ)
    → IsVarint (length (sub_ack_fields props))
    → encode_sub_ack_properties props buf ≡ buf ++ section_bytes (sub_ack_fields props)
unfolding encode_sub_ack_properties
encode_sub_ack_properties_lem props buf fits = push_section_lem (sub_ack_fields props) buf fits

pub encode_sub_ack_properties-le :
    (props : SubAckProperties) (buf : List ℕ)
    → length (sub_ack_fields props) ≤ length (encode_sub_ack_properties props buf)
unfolding encode_sub_ack_properties
encode_sub_ack_properties-le props buf = push_section-le (sub_ack_fields props) buf

pub decode_sub_ack_properties-IsSafe : IsSafe decode_sub_ack_properties
unfolding decode_sub_ack_properties
decode_sub_ack_properties-IsSafe =
    decode_properties-IsSafe sub_ack_property sub_ack_property-IsSafe no_sub_ack_properties
