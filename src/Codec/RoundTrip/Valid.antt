-- ===== src/Codec/RoundTrip/Valid.antt =====
-- The packets that `encode_packet` of src/codec.rs can write in full: those whose numbers fit their
-- fields, whose strings fit a two-byte length, and whose `packet_id` is there when the QoS asks.
use pipistrelle.Prelude.{◌≤◌, ◌≡◌, true, OnSome, All, ltb}
use pipistrelle.Codec.Wire.{IsU16, IsStr, IsShort}
use pipistrelle.Codec.Encode.{is_some, nonempty}
use pipistrelle.Codec.Packet.{
  Packet, connect, conn_ack, publish, pub_ack, subscribe, sub_ack, ping_req, ping_resp, disconnect,
  Connect, Publish, PubAck, Subscribe, SubAck,
}
use pipistrelle.Codec.Properties.Connect.{IsConnectProperties}
use pipistrelle.Codec.Properties.ConnAck.{IsConnAckProperties}
use pipistrelle.Codec.Properties.Publish.{IsPublishProperties}
use pipistrelle.Codec.Properties.PubAck.{IsPubAckProperties}
use pipistrelle.Codec.Properties.Subscribe.{IsSubscribeProperties}
use pipistrelle.Codec.Properties.SubAck.{IsSubAckProperties}
use pipistrelle.Codec.Properties.Disconnect.{IsDisconnectProperties}

pub record IsConnect (pkt : Connect) : Type 0 where
  pub client_id : IsStr pkt.client_id
  pub keep_alive : IsU16 pkt.keep_alive
  pub username : OnSome IsStr pkt.username
  pub password : OnSome IsShort pkt.password
  pub properties : IsConnectProperties pkt.properties

pub record IsPublish (pkt : Publish) : Type 0 where
  pub qos : pkt.qos ≤ 2
  pub topic : IsStr pkt.topic
  pub packet_id : OnSome IsU16 pkt.packet_id
  pub has_id : is_some pkt.packet_id ≡ ltb 0 pkt.qos
  pub properties : IsPublishProperties pkt.properties

pub record IsPubAck (pkt : PubAck) : Type 0 where
  pub packet_id : IsU16 pkt.packet_id
  pub properties : IsPubAckProperties pkt.properties

pub record IsSubscribe (pkt : Subscribe) : Type 0 where
  pub packet_id : IsU16 pkt.packet_id
  pub properties : IsSubscribeProperties pkt.properties
  pub subscriptions : All (λ s. IsStr s.topic_filter) pkt.subscriptions
  pub some_subscription : nonempty pkt.subscriptions ≡ true

pub record IsSubAck (pkt : SubAck) : Type 0 where
  pub packet_id : IsU16 pkt.packet_id
  pub properties : IsSubAckProperties pkt.properties

abbrev pub IsPacket : Packet → Type 0
IsPacket (connect pkt) = IsConnect pkt
IsPacket (conn_ack pkt) = IsConnAckProperties pkt.properties
IsPacket (publish pkt) = IsPublish pkt
IsPacket (pub_ack pkt) = IsPubAck pkt
IsPacket (subscribe pkt) = IsSubscribe pkt
IsPacket (sub_ack pkt) = IsSubAck pkt
IsPacket ping_req = Unit
IsPacket ping_resp = Unit
IsPacket (disconnect pkt) = IsDisconnectProperties pkt.properties
