-- ===== src/Codec/Properties/Disconnect.antt =====
-- `DisconnectProperties` of src/codec.rs: `decode` and `encode`.
use pipistrelle.Prelude.{
  ℕ, ◌≡◌, ◌≤◌, length, refl, List, [], ◌∷◌, ◌++◌, none, some, OnSome, All, ◌==◌, if◌then◌else◌,
}
use pipistrelle.Codec.Outcome.{Reader, ok, err, malformed_packet}
use pipistrelle.Codec.Outcome.Safe.{IsSafe}
use pipistrelle.Codec.Read.{read_u32, read_str}
use pipistrelle.Codec.Write.{write_u32, write_str}
use pipistrelle.Codec.Wire.{IsStr, IsU32, IsVarint, u32, str}
use pipistrelle.Codec.Packet.{DisconnectProperties}
use pipistrelle.Codec.Properties.{
  read_into, read_user_property, decode_properties, push_some, push_user_properties, push_section,
}
use pipistrelle.Codec.Properties.Runs.{Runs, Runs-refl, Runs-push_some, Runs-push_user_properties}
use pipistrelle.Codec.Properties.Safety.{safe_readers, decode_properties-IsSafe}
use pipistrelle.Codec.Properties.Sections.{
  section_bytes, decode_properties-section_bytes, push_section_lem, push_section-le,
}

abbrev pub no_disconnect_properties : DisconnectProperties
no_disconnect_properties = record {
  session_expiry_interval = none;
  reason_string = none;
  user_properties = [];
  server_reference = none;
}

-- The arms of `match prop_id`.
unfoldable pub disconnect_property : ℕ → DisconnectProperties → Reader DisconnectProperties
disconnect_property prop_id props =
    if prop_id == 0x11
    then read_into read_u32 (λ v. record props { session_expiry_interval = some v })
    else if prop_id == 0x1f
    then read_into read_str (λ v. record props { reason_string = some v })
    else if prop_id == 0x26
    then read_user_property
        (λ u. record props { user_properties = props.user_properties ++ u ∷ [] })
    else if prop_id == 0x1c
    then read_into read_str (λ v. record props { server_reference = some v })
    else λ prop_slice. err malformed_packet

unfoldable pub decode_disconnect_properties : Reader DisconnectProperties
decode_disconnect_properties = decode_properties disconnect_property no_disconnect_properties

-- What `encode` collects in `temp_buf`.
unfoldable pub disconnect_fields : DisconnectProperties → List ℕ
disconnect_fields props =
    let t0 = push_some write_u32 0x11 props.session_expiry_interval [] in
    let t1 = push_some write_str 0x1f props.reason_string t0 in
    let t2 = push_user_properties props.user_properties t1 in
    push_some write_str 0x1c props.server_reference t2

unfoldable pub encode_disconnect_properties : DisconnectProperties → List ℕ → List ℕ
encode_disconnect_properties props buf = push_section (disconnect_fields props) buf

-- Properties that the format can carry: numbers of the fields' widths, and short strings.
pub record IsDisconnectProperties (props : DisconnectProperties) : Type 0 where
  pub session_expiry_interval : OnSome IsU32 props.session_expiry_interval
  pub reason_string : OnSome IsStr props.reason_string
  pub user_properties : All (λ u. IsStr u.0 × IsStr u.1) props.user_properties
  pub server_reference : OnSome IsStr props.server_reference

-- The loop reads the fields back, from the default.
pub disconnect_fields-Runs :
    (props : DisconnectProperties)
    → IsDisconnectProperties props
    → Runs disconnect_property no_disconnect_properties (disconnect_fields props) props
unfolding disconnect_fields disconnect_property
disconnect_fields-Runs props h =
    let r = Runs-refl disconnect_property no_disconnect_properties in
    let p0 : DisconnectProperties = no_disconnect_properties in
    let r =
      Runs-push_some disconnect_property u32 0x11 props.session_expiry_interval
        (λ o. record p0 { session_expiry_interval = o }) h.session_expiry_interval (λ buf. refl)
        r in
    let p1 : DisconnectProperties = record p0 {
      session_expiry_interval = props.session_expiry_interval;
    } in
    let r =
      Runs-push_some disconnect_property str 0x1f props.reason_string
        (λ o. record p1 { reason_string = o }) h.reason_string (λ buf. refl) r in
    let p2 : DisconnectProperties = record p1 { reason_string = props.reason_string } in
    let r =
      Runs-push_user_properties disconnect_property props.user_properties []
        (λ us. record p2 { user_properties = us }) h.user_properties (λ us buf. refl) r in
    let p3 : DisconnectProperties = record p2 { user_properties = props.user_properties } in
    Runs-push_some disconnect_property str 0x1c props.server_reference
      (λ o. record p3 { server_reference = o }) h.server_reference (λ buf. refl) r

pub disconnect_property-IsSafe :
    (id : ℕ) (props : DisconnectProperties) → IsSafe (disconnect_property id props)
unfolding disconnect_property
disconnect_property-IsSafe id props = search safe_readers depth 40

pub decode_disconnect_properties-section_bytes :
    (props : DisconnectProperties) (rest : List ℕ)
    → IsDisconnectProperties props
    → IsVarint (length (disconnect_fields props))
    → decode_disconnect_properties (section_bytes (disconnect_fields props) ++ rest)
      ≡ ok (props, rest)
unfolding decode_disconnect_properties
decode_disconnect_properties-section_bytes props rest h fits =
    decode_properties-section_bytes disconnect_property rest (disconnect_fields-Runs props h) fits

pub encode_disconnect_properties_lem :
    (props : DisconnectProperties) (buf : List ℕ)
    → IsVarint (length (disconnect_fields props))
    → encode_disconnect_properties props buf ≡ buf ++ section_bytes (disconnect_fields props)
unfolding encode_disconnect_properties
encode_disconnect_properties_lem props buf fits =
    push_section_lem (disconnect_fields props) buf fits

pub encode_disconnect_properties-le :
    (props : DisconnectProperties) (buf : List ℕ)
    → length (disconnect_fields props) ≤ length (encode_disconnect_properties props buf)
unfolding encode_disconnect_properties
encode_disconnect_properties-le props buf = push_section-le (disconnect_fields props) buf

pub decode_disconnect_properties-IsSafe : IsSafe decode_disconnect_properties
unfolding decode_disconnect_properties
decode_disconnect_properties-IsSafe =
    decode_properties-IsSafe disconnect_property disconnect_property-IsSafe no_disconnect_properties
