-- ===== src/Codec/Properties/Connect.antt =====
-- `ConnectProperties` of src/codec.rs: `decode` and `encode`.
use pipistrelle.Prelude.{
  ℕ, ◌≡◌, ◌≤◌, length, refl, List, [], ◌∷◌, ◌++◌, none, some, OnSome, All, ◌==◌, if◌then◌else◌,
}
use pipistrelle.Codec.Outcome.{Reader, ok, err, malformed_packet}
use pipistrelle.Codec.Outcome.Safe.{IsSafe}
use pipistrelle.Codec.Read.{read_u8, read_u16, read_u32, read_str, read_bytes}
use pipistrelle.Codec.Write.{write_u8, write_u16, write_u32, write_str, write_bytes}
use pipistrelle.Codec.Wire.{
  IsShort, IsStr, IsU16, IsU32, IsVarint, u8, u16, u32, str, binary, any_byte,
}
use pipistrelle.Codec.Packet.{ConnectProperties}
use pipistrelle.Codec.Properties.{
  read_into, read_user_property, decode_properties, push_some, push_user_properties, push_section,
}
use pipistrelle.Codec.Properties.Runs.{Runs, Runs-refl, Runs-push_some, Runs-push_user_properties}
use pipistrelle.Codec.Properties.Safety.{safe_readers, decode_properties-IsSafe}
use pipistrelle.Codec.Properties.Sections.{
  section_bytes, decode_properties-section_bytes, push_section_lem, push_section-le,
}

abbrev pub no_connect_properties : ConnectProperties
no_connect_properties = record {
  session_expiry_interval = none;
  receive_maximum = none;
  max_packet_size = none;
  topic_alias_maximum = none;
  request_response_info = none;
  request_problem_info = none;
  user_properties = [];
  auth_method = none;
  auth_data = none;
}

-- The arms of `match prop_id`.
unfoldable pub connect_property : ℕ → ConnectProperties → Reader ConnectProperties
connect_property prop_id props =
    if prop_id == 0x11
    then read_into read_u32 (λ v. record props { session_expiry_interval = some v })
    else if prop_id == 0x21
    then read_into read_u16 (λ v. record props { receive_maximum = some v })
    else if prop_id == 0x27
    then read_into read_u32 (λ v. record props { max_packet_size = some v })
    else if prop_id == 0x22
    then read_into read_u16 (λ v. record props { topic_alias_maximum = some v })
    else if prop_id == 0x19
    then read_into read_u8 (λ v. record props { request_response_info = some v })
    else if prop_id == 0x17
    then read_into read_u8 (λ v. record props { request_problem_info = some v })
    else if prop_id == 0x26
    then read_user_property
        (λ u. record props { user_properties = props.user_properties ++ u ∷ [] })
    else if prop_id == 0x15
    then read_into read_str (λ v. record props { auth_method = some v })
    else if prop_id == 0x16
    then read_into read_bytes (λ v. record props { auth_data = some v })
    else λ prop_slice. err malformed_packet

unfoldable pub decode_connect_properties : Reader ConnectProperties
decode_connect_properties = decode_properties connect_property no_connect_properties

-- What `encode` collects in `temp_buf`.
unfoldable pub connect_fields : ConnectProperties → List ℕ
connect_fields props =
    let t0 = push_some write_u32 0x11 props.session_expiry_interval [] in
    let t1 = push_some write_u16 0x21 props.receive_maximum t0 in
    let t2 = push_some write_u32 0x27 props.max_packet_size t1 in
    let t3 = push_some write_u16 0x22 props.topic_alias_maximum t2 in
    let t4 = push_some write_u8 0x19 props.request_response_info t3 in
    let t5 = push_some write_u8 0x17 props.request_problem_info t4 in
    let t6 = push_user_properties props.user_properties t5 in
    let t7 = push_some write_str 0x15 props.auth_method t6 in
    push_some write_bytes 0x16 props.auth_data t7

unfoldable pub encode_connect_properties : ConnectProperties → List ℕ → List ℕ
encode_connect_properties props buf = push_section (connect_fields props) buf

-- Properties that the format can carry: numbers of the fields' widths, and short strings.
pub record IsConnectProperties (props : ConnectProperties) : Type 0 where
  pub session_expiry_interval : OnSome IsU32 props.session_expiry_interval
  pub receive_maximum : OnSome IsU16 props.receive_maximum
  pub max_packet_size : OnSome IsU32 props.max_packet_size
  pub topic_alias_maximum : OnSome IsU16 props.topic_alias_maximum
  pub user_properties : All (λ u. IsStr u.0 × IsStr u.1) props.user_properties
  pub auth_method : OnSome IsStr props.auth_method
  pub auth_data : OnSome IsShort props.auth_data

-- The loop reads the fields back, from the default.
pub connect_fields-Runs :
    (props : ConnectProperties)
    → IsConnectProperties props
    → Runs connect_property no_connect_properties (connect_fields props) props
unfolding connect_fields connect_property
connect_fields-Runs props h =
    let r = Runs-refl connect_property no_connect_properties in
    let p0 : ConnectProperties = no_connect_properties in
    let r =
      Runs-push_some connect_property u32 0x11 props.session_expiry_interval
        (λ o. record p0 { session_expiry_interval = o }) h.session_expiry_interval (λ buf. refl)
        r in
    let p1 : ConnectProperties = record p0 {
      session_expiry_interval = props.session_expiry_interval;
    } in
    let r =
      Runs-push_some connect_property u16 0x21 props.receive_maximum
        (λ o. record p1 { receive_maximum = o }) h.receive_maximum (λ buf. refl) r in
    let p2 : ConnectProperties = record p1 { receive_maximum = props.receive_maximum } in
    let r =
      Runs-push_some connect_property u32 0x27 props.max_packet_size
        (λ o. record p2 { max_packet_size = o }) h.max_packet_size (λ buf. refl) r in
    let p3 : ConnectProperties = record p2 { max_packet_size = props.max_packet_size } in
    let r =
      Runs-push_some connect_property u16 0x22 props.topic_alias_maximum
        (λ o. record p3 { topic_alias_maximum = o }) h.topic_alias_maximum (λ buf. refl) r in
    let p4 : ConnectProperties = record p3 { topic_alias_maximum = props.topic_alias_maximum } in
    let r =
      Runs-push_some connect_property u8 0x19 props.request_response_info
        (λ o. record p4 { request_response_info = o }) (any_byte props.request_response_info)
        (λ buf. refl) r in
    let p5 : ConnectProperties = record p4 {
      request_response_info = props.request_response_info;
    } in
    let r =
      Runs-push_some connect_property u8 0x17 props.request_problem_info
        (λ o. record p5 { request_problem_info = o }) (any_byte props.request_problem_info)
        (λ buf. refl) r in
    let p6 : ConnectProperties = record p5 { request_problem_info = props.request_problem_info } in
    let r =
      Runs-push_user_properties connect_property props.user_properties []
        (λ us. record p6 { user_properties = us }) h.user_properties (λ us buf. refl) r in
    let p7 : ConnectProperties = record p6 { user_properties = props.user_properties } in
    let r =
      Runs-push_some connect_property str 0x15 props.auth_method
        (λ o. record p7 { auth_method = o }) h.auth_method (λ buf. refl) r in
    let p8 : ConnectProperties = record p7 { auth_method = props.auth_method } in
    Runs-push_some connect_property binary 0x16 props.auth_data (λ o. record p8 { auth_data = o })
      h.auth_data (λ buf. refl) r

pub connect_property-IsSafe :
    (id : ℕ) (props : ConnectProperties) → IsSafe (connect_property id props)
unfolding connect_property
connect_property-IsSafe id props = search safe_readers depth 40

pub decode_connect_properties-section_bytes :
    (props : ConnectProperties) (rest : List ℕ)
    → IsConnectProperties props
    → IsVarint (length (connect_fields props))
    → decode_connect_properties (section_bytes (connect_fields props) ++ rest) ≡ ok (props, rest)
unfolding decode_connect_properties
decode_connect_properties-section_bytes props rest h fits =
    decode_properties-section_bytes connect_property rest (connect_fields-Runs props h) fits

pub encode_connect_properties_lem :
    (props : ConnectProperties) (buf : List ℕ)
    → IsVarint (length (connect_fields props))
    → encode_connect_properties props buf ≡ buf ++ section_bytes (connect_fields props)
unfolding encode_connect_properties
encode_connect_properties_lem props buf fits = push_section_lem (connect_fields props) buf fits

pub encode_connect_properties-le :
    (props : ConnectProperties) (buf : List ℕ)
    → length (connect_fields props) ≤ length (encode_connect_properties props buf)
unfolding encode_connect_properties
encode_connect_properties-le props buf = push_section-le (connect_fields props) buf

pub decode_connect_properties-IsSafe : IsSafe decode_connect_properties
unfolding decode_connect_properties
decode_connect_properties-IsSafe =
    decode_properties-IsSafe connect_property connect_property-IsSafe no_connect_properties
