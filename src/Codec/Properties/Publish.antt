-- ===== src/Codec/Properties/Publish.antt =====
-- `PublishProperties` of src/codec.rs: `decode` and `encode`.
use pipistrelle.Prelude.{
  ℕ, ◌≡◌, ◌≤◌, length, refl, List, [], ◌∷◌, ◌++◌, none, some, OnSome, All, ◌==◌, if◌then◌else◌,
}
use pipistrelle.Codec.Outcome.{Reader, ok, err, malformed_packet}
use pipistrelle.Codec.Outcome.Safe.{IsSafe}
use pipistrelle.Codec.Read.{read_u8, read_u16, read_u32, read_varint, read_str, read_bytes}
use pipistrelle.Codec.Write.{write_u8, write_u16, write_u32, write_str, write_bytes}
use pipistrelle.Codec.Varint.{encode_varint}
use pipistrelle.Codec.Wire.{
  IsShort, IsStr, IsU16, IsU32, IsVarint, u8, u16, u32, varint, str, binary, any_byte,
}
use pipistrelle.Codec.Packet.{PublishProperties}
use pipistrelle.Codec.Properties.{
  read_into, read_user_property, decode_properties, push_some, push_user_properties, push_section,
}
use pipistrelle.Codec.Properties.Runs.{Runs, Runs-refl, Runs-push_some, Runs-push_user_properties}
use pipistrelle.Codec.Properties.Safety.{safe_readers, decode_properties-IsSafe}
use pipistrelle.Codec.Properties.Sections.{
  section_bytes, decode_properties-section_bytes, push_section_lem, push_section-le,
}

abbrev pub no_publish_properties : PublishProperties
no_publish_properties = record {
  payload_format_indicator = none;
  message_expiry_interval = none;
  content_type = none;
  response_topic = none;
  correlation_data = none;
  subscription_identifier = none;
  topic_alias = none;
  user_properties = [];
}

-- The arms of `match prop_id`.
unfoldable pub publish_property : ℕ → PublishProperties → Reader PublishProperties
publish_property prop_id props =
    if prop_id == 0x01
    then read_into read_u8 (λ v. record props { payload_format_indicator = some v })
    else if prop_id == 0x02
    then read_into read_u32 (λ v. record props { message_expiry_interval = some v })
    else if prop_id == 0x03
    then read_into read_str (λ v. record props { content_type = some v })
    else if prop_id == 0x08
    then read_into read_str (λ v. record props { response_topic = some v })
    else if prop_id == 0x09
    then read_into read_bytes (λ v. record props { correlation_data = some v })
    else if prop_id == 0x0b
    then read_into read_varint (λ v. record props { subscription_identifier = some v })
    else if prop_id == 0x23
    then read_into read_u16 (λ v. record props { topic_alias = some v })
    else if prop_id == 0x26
    then read_user_property
        (λ u. record props { user_properties = props.user_properties ++ u ∷ [] })
    else λ prop_slice. err malformed_packet

unfoldable pub decode_publish_properties : Reader PublishProperties
decode_publish_properties = decode_properties publish_property no_publish_properties

-- What `encode` collects in `temp_buf`.
unfoldable pub publish_fields : PublishProperties → List ℕ
publish_fields props =
    let t0 = push_some write_u8 0x01 props.payload_format_indicator [] in
    let t1 = push_some write_u32 0x02 props.message_expiry_interval t0 in
    let t2 = push_some write_str 0x03 props.content_type t1 in
    let t3 = push_some write_str 0x08 props.response_topic t2 in
    let t4 = push_some write_bytes 0x09 props.correlation_data t3 in
    let t5 = push_some encode_varint 0x0b props.subscription_identifier t4 in
    let t6 = push_some write_u16 0x23 props.topic_alias t5 in
    push_user_properties props.user_properties t6

unfoldable pub encode_publish_properties : PublishProperties → List ℕ → List ℕ
encode_publish_properties props buf = push_section (publish_fields props) buf

-- Properties that the format can carry: numbers of the fields' widths, and short strings.
pub record IsPublishProperties (props : PublishProperties) : Type 0 where
  pub message_expiry_interval : OnSome IsU32 props.message_expiry_interval
  pub content_type : OnSome IsStr props.content_type
  pub response_topic : OnSome IsStr props.response_topic
  pub correlation_data : OnSome IsShort props.correlation_data
  pub subscription_identifier : OnSome IsVarint props.subscription_identifier
  pub topic_alias : OnSome IsU16 props.topic_alias
  pub user_properties : All (λ u. IsStr u.0 × IsStr u.1) props.user_properties

-- The loop reads the fields back, from the default.
pub publish_fields-Runs :
    (props : PublishProperties)
    → IsPublishProperties props
    → Runs publish_property no_publish_properties (publish_fields props) props
unfolding publish_fields publish_property
publish_fields-Runs props h =
    let r = Runs-refl publish_property no_publish_properties in
    let p0 : PublishProperties = no_publish_properties in
    let r =
      Runs-push_some publish_property u8 0x01 props.payload_format_indicator
        (λ o. record p0 { payload_format_indicator = o }) (any_byte props.payload_format_indicator)
        (λ buf. refl) r in
    let p1 : PublishProperties = record p0 {
      payload_format_indicator = props.payload_format_indicator;
    } in
    let r =
      Runs-push_some publish_property u32 0x02 props.message_expiry_interval
        (λ o. record p1 { message_expiry_interval = o }) h.message_expiry_interval (λ buf. refl)
        r in
    let p2 : PublishProperties = record p1 {
      message_expiry_interval = props.message_expiry_interval;
    } in
    let r =
      Runs-push_some publish_property str 0x03 props.content_type
        (λ o. record p2 { content_type = o }) h.content_type (λ buf. refl) r in
    let p3 : PublishProperties = record p2 { content_type = props.content_type } in
    let r =
      Runs-push_some publish_property str 0x08 props.response_topic
        (λ o. record p3 { response_topic = o }) h.response_topic (λ buf. refl) r in
    let p4 : PublishProperties = record p3 { response_topic = props.response_topic } in
    let r =
      Runs-push_some publish_property binary 0x09 props.correlation_data
        (λ o. record p4 { correlation_data = o }) h.correlation_data (λ buf. refl) r in
    let p5 : PublishProperties = record p4 { correlation_data = props.correlation_data } in
    let r =
      Runs-push_some publish_property varint 0x0b props.subscription_identifier
        (λ o. record p5 { subscription_identifier = o }) h.subscription_identifier (λ buf. refl)
        r in
    let p6 : PublishProperties = record p5 {
      subscription_identifier = props.subscription_identifier;
    } in
    let r =
      Runs-push_some publish_property u16 0x23 props.topic_alias
        (λ o. record p6 { topic_alias = o }) h.topic_alias (λ buf. refl) r in
    let p7 : PublishProperties = record p6 { topic_alias = props.topic_alias } in
    Runs-push_user_properties publish_property props.user_properties []
      (λ us. record p7 { user_properties = us }) h.user_properties (λ us buf. refl) r

pub publish_property-IsSafe :
    (id : ℕ) (props : PublishProperties) → IsSafe (publish_property id props)
unfolding publish_property
publish_property-IsSafe id props = search safe_readers depth 40

pub decode_publish_properties-section_bytes :
    (props : PublishProperties) (rest : List ℕ)
    → IsPublishProperties props
    → IsVarint (length (publish_fields props))
    → decode_publish_properties (section_bytes (publish_fields props) ++ rest) ≡ ok (props, rest)
unfolding decode_publish_properties
decode_publish_properties-section_bytes props rest h fits =
    decode_properties-section_bytes publish_property rest (publish_fields-Runs props h) fits

pub encode_publish_properties_lem :
    (props : PublishProperties) (buf : List ℕ)
    → IsVarint (length (publish_fields props))
    → encode_publish_properties props buf ≡ buf ++ section_bytes (publish_fields props)
unfolding encode_publish_properties
encode_publish_properties_lem props buf fits = push_section_lem (publish_fields props) buf fits

pub encode_publish_properties-le :
    (props : PublishProperties) (buf : List ℕ)
    → length (publish_fields props) ≤ length (encode_publish_properties props buf)
unfolding encode_publish_properties
encode_publish_properties-le props buf = push_section-le (publish_fields props) buf

pub decode_publish_properties-IsSafe : IsSafe decode_publish_properties
unfolding decode_publish_properties
decode_publish_properties-IsSafe =
    decode_properties-IsSafe publish_property publish_property-IsSafe no_publish_properties
