-- ===== src/Codec/Packet.antt =====
-- The packet types of src/codec.rs. A `&str` and a `&[u8]` are lists of bytes.
use pipistrelle.Prelude.{ℕ, Bool, List, Option}

pub record ConnectProperties : Type 0 where
  pub session_expiry_interval : Option ℕ
  pub receive_maximum : Option ℕ
  pub max_packet_size : Option ℕ
  pub topic_alias_maximum : Option ℕ
  pub request_response_info : Option ℕ
  pub request_problem_info : Option ℕ
  pub user_properties : List (List ℕ × List ℕ)
  pub auth_method : Option (List ℕ)
  pub auth_data : Option (List ℕ)

pub record Connect : Type 0 where
  pub client_id : List ℕ
  pub keep_alive : ℕ
  pub clean_start : Bool
  pub username : Option (List ℕ)
  pub password : Option (List ℕ)
  pub properties : ConnectProperties

pub record ConnAckProperties : Type 0 where
  pub session_expiry_interval : Option ℕ
  pub receive_maximum : Option ℕ
  pub max_qos : Option ℕ
  pub retain_available : Option ℕ
  pub maximum_packet_size : Option ℕ
  pub assigned_client_identifier : Option (List ℕ)
  pub topic_alias_maximum : Option ℕ
  pub reason_string : Option (List ℕ)
  pub user_properties : List (List ℕ × List ℕ)
  pub wildcard_subscription_available : Option ℕ
  pub subscription_identifiers_available : Option ℕ
  pub shared_subscription_available : Option ℕ
  pub server_keep_alive : Option ℕ
  pub response_information : Option (List ℕ)
  pub server_reference : Option (List ℕ)
  pub authentication_method : Option (List ℕ)
  pub authentication_data : Option (List ℕ)

pub record ConnAck : Type 0 where
  pub session_present : Bool
  pub reason_code : ℕ
  pub properties : ConnAckProperties

pub record PublishProperties : Type 0 where
  pub payload_format_indicator : Option ℕ
  pub message_expiry_interval : Option ℕ
  pub content_type : Option (List ℕ)
  pub response_topic : Option (List ℕ)
  pub correlation_data : Option (List ℕ)
  pub subscription_identifier : Option ℕ
  pub topic_alias : Option ℕ
  pub user_properties : List (List ℕ × List ℕ)

pub record Publish : Type 0 where
  pub dup : Bool
  pub qos : ℕ
  pub retain : Bool
  pub topic : List ℕ
  pub packet_id : Option ℕ
  pub properties : PublishProperties
  pub payload : List ℕ

pub record PubAckProperties : Type 0 where
  pub reason_string : Option (List ℕ)
  pub user_properties : List (List ℕ × List ℕ)

pub record PubAck : Type 0 where
  pub packet_id : ℕ
  pub reason_code : ℕ
  pub properties : PubAckProperties

pub record SubscribeProperties : Type 0 where
  pub subscription_identifier : Option ℕ
  pub user_properties : List (List ℕ × List ℕ)

pub record Subscription : Type 0 where
  pub topic_filter : List ℕ
  pub options : ℕ

pub record Subscribe : Type 0 where
  pub packet_id : ℕ
  pub properties : SubscribeProperties
  pub subscriptions : List Subscription

pub record SubAckProperties : Type 0 where
  pub reason_string : Option (List ℕ)
  pub user_properties : List (List ℕ × List ℕ)

pub record SubAck : Type 0 where
  pub packet_id : ℕ
  pub properties : SubAckProperties
  pub reason_codes : List ℕ

pub record DisconnectProperties : Type 0 where
  pub session_expiry_interval : Option ℕ
  pub reason_string : Option (List ℕ)
  pub user_properties : List (List ℕ × List ℕ)
  pub server_reference : Option (List ℕ)

pub record Disconnect : Type 0 where
  pub reason_code : ℕ
  pub properties : DisconnectProperties

pub data Packet : Type 0 where
  connect : Connect → Packet
  conn_ack : ConnAck → Packet
  publish : Publish → Packet
  pub_ack : PubAck → Packet
  subscribe : Subscribe → Packet
  sub_ack : SubAck → Packet
  ping_req : Packet
  ping_resp : Packet
  disconnect : Disconnect → Packet
