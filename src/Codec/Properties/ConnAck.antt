-- ===== src/Codec/Properties/ConnAck.antt =====
-- `ConnAckProperties` of src/codec.rs: `decode` and `encode`.
use pipistrelle.Prelude.{
  ℕ, ◌≡◌, ◌≤◌, length, refl, List, [], ◌∷◌, ◌++◌, none, some, OnSome, All, ◌==◌, if◌then◌else◌,
}
use pipistrelle.Codec.Outcome.{Reader, ok, err, malformed_packet}
use pipistrelle.Codec.Outcome.Safe.{IsSafe}
use pipistrelle.Codec.Read.{read_u8, read_u16, read_u32, read_str, read_bytes}
use pipistrelle.Codec.Write.{write_u8, write_u16, write_u32, write_str, write_bytes}
use pipistrelle.Codec.Wire.{
  IsShort, IsStr, IsU16, IsU32, IsVarint, u8, u16, u32, str, binary, any_byte,
}
use pipistrelle.Codec.Packet.{ConnAckProperties}
use pipistrelle.Codec.Properties.{
  read_into, read_user_property, decode_properties, push_some, push_user_properties, push_section,
}
use pipistrelle.Codec.Properties.Runs.{Runs, Runs-refl, Runs-push_some, Runs-push_user_properties}
use pipistrelle.Codec.Properties.Safety.{safe_readers, decode_properties-IsSafe}
use pipistrelle.Codec.Properties.Sections.{
  section_bytes, decode_properties-section_bytes, push_section_lem, push_section-le,
}

abbrev pub no_conn_ack_properties : ConnAckProperties
no_conn_ack_properties = record {
  session_expiry_interval = none;
  receive_maximum = none;
  max_qos = none;
  retain_available = none;
  maximum_packet_size = none;
  assigned_client_identifier = none;
  topic_alias_maximum = none;
  reason_string = none;
  user_properties = [];
  wildcard_subscription_available = none;
  subscription_identifiers_available = none;
  shared_subscription_available = none;
  server_keep_alive = none;
  response_information = none;
  server_reference = none;
  authentication_method = none;
  authentication_data = none;
}

-- The arms of `match prop_id`.
unfoldable pub conn_ack_property : ℕ → ConnAckProperties → Reader ConnAckProperties
conn_ack_property prop_id props =
    if prop_id == 0x11
    then read_into read_u32 (λ v. record props { session_expiry_interval = some v })
    else if prop_id == 0x21
    then read_into read_u16 (λ v. record props { receive_maximum = some v })
    else if prop_id == 0x24
    then read_into read_u8 (λ v. record props { max_qos = some v })
    else if prop_id == 0x25
    then read_into read_u8 (λ v. record props { retain_available = some v })
    else if prop_id == 0x27
    then read_into read_u32 (λ v. record props { maximum_packet_size = some v })
    else if prop_id == 0x12
    then read_into read_str (λ v. record props { assigned_client_identifier = some v })
    else if prop_id == 0x22
    then read_into read_u16 (λ v. record props { topic_alias_maximum = some v })
    else if prop_id == 0x1f
    then read_into read_str (λ v. record props { reason_string = some v })
    else if prop_id == 0x26
    then read_user_property
        (λ u. record props { user_properties = props.user_properties ++ u ∷ [] })
    else if prop_id == 0x28
    then read_into read_u8 (λ v. record props { wildcard_subscription_available = some v })
    else if prop_id == 0x29
    then read_into read_u8 (λ v. record props { subscription_identifiers_available = some v })
    else if prop_id == 0x2a
    then read_into read_u8 (λ v. record props { shared_subscription_available = some v })
    else if prop_id == 0x13
    then read_into read_u16 (λ v. record props { server_keep_alive = some v })
    else if prop_id == 0x1a
    then read_into read_str (λ v. record props { response_information = some v })
    else if prop_id == 0x1c
    then read_into read_str (λ v. record props { server_reference = some v })
    else if prop_id == 0x15
    then read_into read_str (λ v. record props { authentication_method = some v })
    else if prop_id == 0x16
    then read_into read_bytes (λ v. record props { authentication_data = some v })
    else λ prop_slice. err malformed_packet

unfoldable pub decode_conn_ack_properties : Reader ConnAckProperties
decode_conn_ack_properties = decode_properties conn_ack_property no_conn_ack_properties

-- What `encode` collects in `temp_buf`.
unfoldable pub conn_ack_fields : ConnAckProperties → List ℕ
conn_ack_fields props =
    let t0 = push_some write_u32 0x11 props.session_expiry_interval [] in
    let t1 = push_some write_u16 0x21 props.receive_maximum t0 in
    let t2 = push_some write_u8 0x24 props.max_qos t1 in
    let t3 = push_some write_u8 0x25 props.retain_available t2 in
    let t4 = push_some write_u32 0x27 props.maximum_packet_size t3 in
    let t5 = push_some write_str 0x12 props.assigned_client_identifier t4 in
    let t6 = push_some write_u16 0x22 props.topic_alias_maximum t5 in
    let t7 = push_some write_str 0x1f props.reason_string t6 in
    let t8 = push_user_properties props.user_properties t7 in
    let t9 = push_some write_u8 0x28 props.wildcard_subscription_available t8 in
    let t10 = push_some write_u8 0x29 props.subscription_identifiers_available t9 in
    let t11 = push_some write_u8 0x2a props.shared_subscription_available t10 in
    let t12 = push_some write_u16 0x13 props.server_keep_alive t11 in
    let t13 = push_some write_str 0x1a props.response_information t12 in
    let t14 = push_some write_str 0x1c props.server_reference t13 in
    let t15 = push_some write_str 0x15 props.authentication_method t14 in
    push_some write_bytes 0x16 props.authentication_data t15

unfoldable pub encode_conn_ack_properties : ConnAckProperties → List ℕ → List ℕ
encode_conn_ack_properties props buf = push_section (conn_ack_fields props) buf

-- Properties that the format can carry: numbers of the fields' widths, and short strings.
pub record IsConnAckProperties (props : ConnAckProperties) : Type 0 where
  pub session_expiry_interval : OnSome IsU32 props.session_expiry_interval
  pub receive_maximum : OnSome IsU16 props.receive_maximum
  pub maximum_packet_size : OnSome IsU32 props.maximum_packet_size
  pub assigned_client_identifier : OnSome IsStr props.assigned_client_identifier
  pub topic_alias_maximum : OnSome IsU16 props.topic_alias_maximum
  pub reason_string : OnSome IsStr props.reason_string
  pub user_properties : All (λ u. IsStr u.0 × IsStr u.1) props.user_properties
  pub server_keep_alive : OnSome IsU16 props.server_keep_alive
  pub response_information : OnSome IsStr props.response_information
  pub server_reference : OnSome IsStr props.server_reference
  pub authentication_method : OnSome IsStr props.authentication_method
  pub authentication_data : OnSome IsShort props.authentication_data

-- The loop reads the fields back, from the default.
pub conn_ack_fields-Runs :
    (props : ConnAckProperties)
    → IsConnAckProperties props
    → Runs conn_ack_property no_conn_ack_properties (conn_ack_fields props) props
unfolding conn_ack_fields conn_ack_property
conn_ack_fields-Runs props h =
    let r = Runs-refl conn_ack_property no_conn_ack_properties in
    let p0 : ConnAckProperties = no_conn_ack_properties in
    let r =
      Runs-push_some conn_ack_property u32 0x11 props.session_expiry_interval
        (λ o. record p0 { session_expiry_interval = o }) h.session_expiry_interval (λ buf. refl)
        r in
    let p1 : ConnAckProperties = record p0 {
      session_expiry_interval = props.session_expiry_interval;
    } in
    let r =
      Runs-push_some conn_ack_property u16 0x21 props.receive_maximum
        (λ o. record p1 { receive_maximum = o }) h.receive_maximum (λ buf. refl) r in
    let p2 : ConnAckProperties = record p1 { receive_maximum = props.receive_maximum } in
    let r =
      Runs-push_some conn_ack_property u8 0x24 props.max_qos (λ o. record p2 { max_qos = o })
        (any_byte props.max_qos) (λ buf. refl) r in
    let p3 : ConnAckProperties = record p2 { max_qos = props.max_qos } in
    let r =
      Runs-push_some conn_ack_property u8 0x25 props.retain_available
        (λ o. record p3 { retain_available = o }) (any_byte props.retain_available) (λ buf. refl)
        r in
    let p4 : ConnAckProperties = record p3 { retain_available = props.retain_available } in
    let r =
      Runs-push_some conn_ack_property u32 0x27 props.maximum_packet_size
        (λ o. record p4 { maximum_packet_size = o }) h.maximum_packet_size (λ buf. refl) r in
    let p5 : ConnAckProperties = record p4 { maximum_packet_size = props.maximum_packet_size } in
    let r =
      Runs-push_some conn_ack_property str 0x12 props.assigned_client_identifier
        (λ o. record p5 { assigned_client_identifier = o }) h.assigned_client_identifier
        (λ buf. refl) r in
    let p6 : ConnAckProperties = record p5 {
      assigned_client_identifier = props.assigned_client_identifier;
    } in
    let r =
      Runs-push_some conn_ack_property u16 0x22 props.topic_alias_maximum
        (λ o. record p6 { topic_alias_maximum = o }) h.topic_alias_maximum (λ buf. refl) r in
    let p7 : ConnAckProperties = record p6 { topic_alias_maximum = props.topic_alias_maximum } in
    let r =
      Runs-push_some conn_ack_property str 0x1f props.reason_string
        (λ o. record p7 { reason_string = o }) h.reason_string (λ buf. refl) r in
    let p8 : ConnAckProperties = record p7 { reason_string = props.reason_string } in
    let r =
      Runs-push_user_properties conn_ack_property props.user_properties []
        (λ us. record p8 { user_properties = us }) h.user_properties (λ us buf. refl) r in
    let p9 : ConnAckProperties = record p8 { user_properties = props.user_properties } in
    let r =
      Runs-push_some conn_ack_property u8 0x28 props.wildcard_subscription_available
        (λ o. record p9 { wildcard_subscription_available = o })
        (any_byte props.wildcard_subscription_available) (λ buf. refl) r in
    let p10 : ConnAckProperties = record p9 {
      wildcard_subscription_available = props.wildcard_subscription_available;
    } in
    let r =
      Runs-push_some conn_ack_property u8 0x29 props.subscription_identifiers_available
        (λ o. record p10 { subscription_identifiers_available = o })
        (any_byte props.subscription_identifiers_available) (λ buf. refl) r in
    let p11 : ConnAckProperties = record p10 {
      subscription_identifiers_available = props.subscription_identifiers_available;
    } in
    let r =
      Runs-push_some conn_ack_property u8 0x2a props.shared_subscription_available
        (λ o. record p11 { shared_subscription_available = o })
        (any_byte props.shared_subscription_available) (λ buf. refl) r in
    let p12 : ConnAckProperties = record p11 {
      shared_subscription_available = props.shared_subscription_available;
    } in
    let r =
      Runs-push_some conn_ack_property u16 0x13 props.server_keep_alive
        (λ o. record p12 { server_keep_alive = o }) h.server_keep_alive (λ buf. refl) r in
    let p13 : ConnAckProperties = record p12 { server_keep_alive = props.server_keep_alive } in
    let r =
      Runs-push_some conn_ack_property str 0x1a props.response_information
        (λ o. record p13 { response_information = o }) h.response_information (λ buf. refl) r in
    let p14 : ConnAckProperties = record p13 {
      response_information = props.response_information;
    } in
    let r =
      Runs-push_some conn_ack_property str 0x1c props.server_reference
        (λ o. record p14 { server_reference = o }) h.server_reference (λ buf. refl) r in
    let p15 : ConnAckProperties = record p14 { server_reference = props.server_reference } in
    let r =
      Runs-push_some conn_ack_property str 0x15 props.authentication_method
        (λ o. record p15 { authentication_method = o }) h.authentication_method (λ buf. refl) r in
    let p16 : ConnAckProperties = record p15 {
      authentication_method = props.authentication_method;
    } in
    Runs-push_some conn_ack_property binary 0x16 props.authentication_data
      (λ o. record p16 { authentication_data = o }) h.authentication_data (λ buf. refl) r

pub conn_ack_property-IsSafe :
    (id : ℕ) (props : ConnAckProperties) → IsSafe (conn_ack_property id props)
unfolding conn_ack_property
conn_ack_property-IsSafe id props = search safe_readers depth 40

pub decode_conn_ack_properties-section_bytes :
    (props : ConnAckProperties) (rest : List ℕ)
    → IsConnAckProperties props
    → IsVarint (length (conn_ack_fields props))
    → decode_conn_ack_properties (section_bytes (conn_ack_fields props) ++ rest) ≡ ok (props, rest)
unfolding decode_conn_ack_properties
decode_conn_ack_properties-section_bytes props rest h fits =
    decode_properties-section_bytes conn_ack_property rest (conn_ack_fields-Runs props h) fits

pub encode_conn_ack_properties_lem :
    (props : ConnAckProperties) (buf : List ℕ)
    → IsVarint (length (conn_ack_fields props))
    → encode_conn_ack_properties props buf ≡ buf ++ section_bytes (conn_ack_fields props)
unfolding encode_conn_ack_properties
encode_conn_ack_properties_lem props buf fits = push_section_lem (conn_ack_fields props) buf fits

pub encode_conn_ack_properties-le :
    (props : ConnAckProperties) (buf : List ℕ)
    → length (conn_ack_fields props) ≤ length (encode_conn_ack_properties props buf)
unfolding encode_conn_ack_properties
encode_conn_ack_properties-le props buf = push_section-le (conn_ack_fields props) buf

pub decode_conn_ack_properties-IsSafe : IsSafe decode_conn_ack_properties
unfolding decode_conn_ack_properties
decode_conn_ack_properties-IsSafe =
    decode_properties-IsSafe conn_ack_property conn_ack_property-IsSafe no_conn_ack_properties
