-- ===== src/Signal/Request.antt =====
-- The requests to the server, as far as Signal.cpp fills them in (the message types of
-- rtc.proto that the methods from line 1228 on send).
use bff_rtc_base.Base.{ℕ, Bool, List, Option, Bytes}
use bff_rtc_base.Signal.Config.{RtcIcePolicy}

-- The bits of the two floats.
pub record Location : Type 0 where
  pub latitude : ℕ
  pub longitude : ℕ

pub record Options : Type 0 where
  pub codecs : List Bytes
  pub auto_subscribe : Bool
  pub publishing_audio : Bool
  pub publishing_video : Bool
  pub recreating : Bool
  pub ip : Bytes
  pub ice_policy : RtcIcePolicy
  pub video_orientation : Bool
  pub location : Option Location

pub record SessionDescription : Type 0 where
  pub sdp : Bytes
  pub sdp_z : Bytes

pub data Message : Type 0 where
  join recreate : Options → Message
  leave : Message
  ping : (timestamp rtt : ℕ) → Message
  offer answer : SessionDescription → Message
  candidate : Bytes → Message
  negotiation : Bool → Message
  subscribe : (audio video : Bool) → Message
  mute : (video on : Bool) → (timestamp : ℕ) → Message
  select_channel : (mesh : Bool) → Message
  node_rtts : List (Bytes × ℕ) → Message
  srtp_key : (profile : ℕ) → (key : Bytes) → Message
  upload : (filename content : Bytes) → Message

-- `to` is empty where the code does not set it.
pub record SignalRequest : Type 0 where
  pub id : ℕ
  pub channel : ℕ
  pub to : Bytes
  pub message : Message
