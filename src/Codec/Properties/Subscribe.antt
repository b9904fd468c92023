-- ===== src/Codec/Properties/Subscribe.antt =====
-- `SubscribeProperties` of src/codec.rs: `decode` and `encode`.
use pipistrelle.Prelude.{
  ℕ, ◌≡◌, ◌≤◌, length, refl, List, [], ◌∷◌, ◌++◌, none, some, OnSome, All, ◌==◌, if◌then◌else◌,
}
use pipistrelle.Codec.Outcome.{Reader, ok, err, malformed_packet}
use pipistrelle.Codec.Outcome.Safe.{IsSafe}
use pipistrelle.Codec.Read.{read_varint}
use pipistrelle.Codec.Varint.{encode_varint}
use pipistrelle.Codec.Wire.{IsStr, IsVarint, varint}
use pipistrelle.Codec.Packet.{SubscribeProperties}
use pipistrelle.Codec.Properties.{
  read_into, read_user_property, decode_properties, push_some, push_user_properties, push_section,
}
use pipistrelle.Codec.Properties.Runs.{Runs, Runs-refl, Runs-push_some, Runs-push_user_properties}
use pipistrelle.Codec.Properties.Safety.{safe_readers, decode_properties-IsSafe}
use pipistrelle.Codec.Properties.Sections.{
  section_bytes, decode_properties-section_bytes, push_section_lem, push_section-le,
}

abbrev pub no_subscribe_properties : SubscribeProperties
no_subscribe_properties = record { subscription_identifier = none; user_properties = [] }

-- The arms of `match prop_id`.
unfoldable pub subscribe_property : ℕ → SubscribeProperties → Reader SubscribeProperties
subscribe_property prop_id props =
    if prop_id == 0x0b
    then read_into read_varint (λ v. record props { subscription_identifier = some v })
    else if prop_id == 0x26
    then read_user_property
        (λ u. record props { user_properties = props.user_properties ++ u ∷ [] })
    else λ prop_slice. err malformed_packet

unfoldable pub decode_subscribe_properties : Reader SubscribeProperties
decode_subscribe_properties = decode_properties subscribe_property no_subscribe_properties

-- What `encode` collects in `temp_buf`.
unfoldable pub subscribe_fields : SubscribeProperties → List ℕ
subscribe_fields props =
    let t0 = push_some encode_varint 0x0b props.subscription_identifier [] in
    push_user_properties props.user_properties t0

unfoldable pub encode_subscribe_properties : SubscribeProperties → List ℕ → List ℕ
encode_subscribe_properties props buf = push_section (subscribe_fields props) buf

-- Properties that the format can carry: numbers of the fields' widths, and short strings.
pub record IsSubscribeProperties (props : SubscribeProperties) : Type 0 where
  pub subscription_identifier : OnSome IsVarint props.subscription_identifier
  pub user_properties : All (λ u. IsStr u.0 × IsStr u.1) props.user_properties

-- The loop reads the fields back, from the default.
pub subscribe_fields-Runs :
    (props : SubscribeProperties)
    → IsSubscribeProperties props
    → Runs subscribe_property no_subscribe_properties (subscribe_fields props) props
unfolding subscribe_fields subscribe_property
subscribe_fields-Runs props h =
    let r = Runs-refl subscribe_property no_subscribe_properties in
    let p0 : SubscribeProperties = no_subscribe_properties in
    let r =
      Runs-push_some subscribe_property varint 0x0b props.subscription_identifier
        (λ o. record p0 { subscription_identifier = o }) h.subscription_identifier (λ buf. refl)
        r in
    let p1 : SubscribeProperties = record p0 {
      subscription_identifier = props.subscription_identifier;
    } in
    Runs-push_user_properties subscribe_property props.user_properties []
      (λ us. record p1 { user_properties = us }) h.user_properties (λ us buf. refl) r

pub subscribe_property-IsSafe :
    (id : ℕ) (props : SubscribeProperties) → IsSafe (subscribe_property id props)
unfolding subscribe_property
subscribe_property-IsSafe id props = search safe_readers depth 40

pub decode_subscribe_properties-section_bytes :
    (props : SubscribeProperties) (rest : List ℕ)
    → IsSubscribeProperties props
    → IsVarint (length (subscribe_fields props))
    → decode_subscribe_properties (section_bytes (subscribe_fields props) ++ rest)
      ≡ ok (props, rest)
unfolding decode_subscribe_properties
decode_subscribe_properties-section_bytes props rest h fits =
    decode_properties-section_bytes subscribe_property rest (subscribe_fields-Runs props h) fits

pub encode_subscribe_properties_lem :
    (props : SubscribeProperties) (buf : List ℕ)
    → IsVarint (length (subscribe_fields props))
    → encode_subscribe_properties props buf ≡ buf ++ section_bytes (subscribe_fields props)
unfolding encode_subscribe_properties
encode_subscribe_properties_lem props buf fits = push_section_lem (subscribe_fields props) buf fits

pub encode_subscribe_properties-le :
    (props : SubscribeProperties) (buf : List ℕ)
    → length (subscribe_fields props) ≤ length (encode_subscribe_properties props buf)
unfolding encode_subscribe_properties
encode_subscribe_properties-le props buf = push_section-le (subscribe_fields props) buf

pub decode_subscribe_properties-IsSafe : IsSafe decode_subscribe_properties
unfolding decode_subscribe_properties
decode_subscribe_properties-IsSafe =
    decode_properties-IsSafe subscribe_property subscribe_property-IsSafe no_subscribe_properties
