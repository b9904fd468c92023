-- ===== src/Codec/Properties/PubAck.antt =====
-- `PubAckProperties` of src/codec.rs: `decode` and `encode`.
use pipistrelle.Prelude.{
  ℕ, ◌≡◌, ◌≤◌, length, refl, List, [], ◌∷◌, ◌++◌, none, some, OnSome, All, ◌==◌, if◌then◌else◌,
}
use pipistrelle.Codec.Outcome.{Reader, ok, err, malformed_packet}
use pipistrelle.Codec.Outcome.Safe.{IsSafe}
use pipistrelle.Codec.Read.{read_str}
use pipistrelle.Codec.Write.{write_str}
use pipistrelle.Codec.Wire.{IsStr, IsVarint, str}
use pipistrelle.Codec.Packet.{PubAckProperties}
use pipistrelle.Codec.Properties.{
  read_into, read_user_property, decode_properties, push_some, push_user_properties, push_section,
}
use pipistrelle.Codec.Properties.Runs.{Runs, Runs-refl, Runs-push_some, Runs-push_user_properties}
use pipistrelle.Codec.Properties.Safety.{safe_readers, decode_properties-IsSafe}
use pipistrelle.Codec.Properties.Sections.{
  section_bytes, decode_properties-section_bytes, push_section_lem, push_section-le,
}

abbrev pub no_pub_ack_properties : PubAckProperties
no_pub_ack_properties = record { reason_string = none; user_properties = [] }

-- The arms of `match prop_id`.
unfoldable pub pub_ack_property : ℕ → PubAckProperties → Reader PubAckProperties
pub_ack_property prop_id props =
    if prop_id == 0x1f
    then read_into read_str (λ v. record props { reason_string = some v })
    else if prop_id == 0x26
    then read_user_property
        (λ u. record props { user_properties = props.user_properties ++ u ∷ [] })
    else λ prop_slice. err malformed_packet

unfoldable pub decode_pub_ack_properties : Reader PubAckProperties
decode_pub_ack_properties = decode_properties pub_ack_property no_pub_ack_properties

-- What `encode` collects in `temp_buf`.
unfoldable pub pub_ack_fields : PubAckProperties → List ℕ
pub_ack_fields props =
    let t0 = push_some write_str 0x1f props.reason_string [] in
    push_user_properties props.user_properties t0

unfoldable pub encode_pub_ack_properties : PubAckProperties → List ℕ → List ℕ
encode_pub_ack_properties props buf = push_section (pub_ack_fields props) buf

-- Properties that the format can carry: numbers of the fields' widths, and short strings.
pub record IsPubAckProperties (props : PubAckProperties) : Type 0 where
  pub reason_string : OnSome IsStr props.reason_string
  pub user_properties : All (λ u. IsStr u.0 × IsStr u.1) props.user_properties

-- The loop reads the fields back, from the default.
pub pub_ack_fields-Runs :
    (props : PubAckProperties)
    → IsPubAckProperties props
    → Runs pub_ack_property no_pub_ack_properties (pub_ack_fields props) props
unfolding pub_ack_fields pub_ack_property
pub_ack_fields-Runs props h =
    let r = Runs-refl pub_ack_property no_pub_ack_properties in
    let p0 : PubAckProperties = no_pub_ack_properties in
    let r =
      Runs-push_some pub_ack_property str 0x1f props.reason_string
        (λ o. record p0 { reason_string = o }) h.reason_string (λ buf. refl) r in
    let p1 : PubAckProperties = record p0 { reason_string = props.reason_string } in
    Runs-push_user_properties pub_ack_property props.user_properties []
      (λ us. record p1 { user_properties = us }) h.user_properties (λ us buf. refl) r

pub pub_ack_property-IsSafe :
    (id : ℕ) (props : PubAckProperties) → IsSafe (pub_ack_property id props)
unfolding pub_ack_property
pub_ack_property-IsSafe id props = search safe_readers depth 40

pub decode_pub_ack_properties-section_bytes :
    (props : PubAckProperties) (rest : List ℕ)
    → IsPubAckProperties props
    → IsVarint (length (pub_ack_fields props))
    → decode_pub_ack_properties (section_bytes (pub_ack_fields props) ++ rest) ≡ ok (props, rest)
unfolding decode_pub_ack_properties
decode_pub_ack_properties-section_bytes props rest h fits =
    decode_properties-section_bytes pub_ack_property rest (pub_ack_fields-Runs props h) fits

pub encode_pub_ack_properties_lem :
    (props : PubAckProperties) (buf : List ℕ)
    → IsVarint (length (pub_ack_fields props))
    → encode_pub_ack_properties props buf ≡ buf ++ section_bytes (pub_ack_fields props)
unfolding encode_pub_ack_properties
encode_pub_ack_properties_lem props buf fits = push_section_lem (pub_ack_fields props) buf fits

pub encode_pub_ack_properties-le :
    (props : PubAckProperties) (buf : List ℕ)
    → length (pub_ack_fields props) ≤ length (encode_pub_ack_properties props buf)
unfolding encode_pub_ack_properties
encode_pub_ack_properties-le props buf = push_section-le (pub_ack_fields props) buf

pub decode_pub_ack_properties-IsSafe : IsSafe decode_pub_ack_properties
unfolding decode_pub_ack_properties
decode_pub_ack_properties-IsSafe =
    decode_properties-IsSafe pub_ack_property pub_ack_property-IsSafe no_pub_ack_properties
