-- ===== src/Signal/Response.antt =====
-- The messages of the server, as far as Signal.cpp reads them (lines 1453 to 1673). What the code
-- hands on as it is counts as its bytes; `none` stands for a null pointer.
use bff_rtc_base.Base.{ℕ, Bool, List, [], Option, none, some, Bytes, ℤ, if◌then◌else◌, is_empty}
use bff_rtc_base.Signal.Request.{SessionDescription}
use bff_rtc_base.Signal.State.{IceCandidate}

pub record NodeList : Type 0 where
  pub ips : List (Option Bytes)
  pub stun_port : ℕ
  pub client_ip : Bytes

-- A text that is null counts as empty, and a subscription without audio or video as false.
pub data Reply : Type 0 where
  joined config leaved remove_track candidate compression : Option Bytes → Reply
  subscribed : (audio video : Bool) → Reply
  addr token stats broadcast : Bytes → Reply
  offer answer : Option SessionDescription → Reply
  node_list : Option NodeList → Reply
  pong : (timestamp : Option ℕ) → Reply
  add_track : Option (Bytes × List (Option Bytes)) → Reply
  peer_state : ℤ → Reply
  response : (code : Option ℤ) → Reply
  negotiation : Bool → Reply
  not_set : Reply

pub record Response : Type 0 where
  pub id : ℕ
  pub channel : ℕ
  pub from : Bytes
  pub reply : Reply

-- A text of JSON, its three members where they have their types.
pub record CandidateJson : Type 0 where
  pub candidate : Option Bytes
  pub sdp_mid : Option Bytes
  pub sdp_mline_index : Option ℤ

-- The generated codec, the parser of JSON and zstd's decoder, which gives nothing where it fails.
pub record Codec : Type 0 where
  pub unpack_response : Bytes → Option Response
  pub response_of_json : Bytes → Option Response
  pub candidate_json : Bytes → Option CandidateJson
  pub zstd_decode : Bytes → Bytes

abbrev whole : Option Bytes → Option Bytes → Option ℤ → Option IceCandidate
whole (some sdp) (some sdp_mid) (some index) =
    some (record { sdp = sdp; sdp_mid = sdp_mid; sdp_mline_index = index })
whole _ _ _ = none

abbrev whole_candidate : Option CandidateJson → Option IceCandidate
whole_candidate none = none
whole_candidate (some j) = whole j.candidate j.sdp_mid j.sdp_mline_index

abbrev pub parse_ice_candidate_json : Codec → Bytes → Option IceCandidate
parse_ice_candidate_json codec text = whole_candidate (codec.candidate_json text)

-- `Zstd::resolveSdp`
abbrev pub resolve_sdp : Codec → (sdp sdp_z : Bytes) → Bytes
resolve_sdp codec sdp sdp_z =
    if is_empty sdp then if is_empty sdp_z then [] else codec.zstd_decode sdp_z else sdp

abbrev pub resolve_desc_sdp : Codec → Option SessionDescription → Bytes
resolve_desc_sdp codec none = []
resolve_desc_sdp codec (some desc) = resolve_sdp codec desc.sdp desc.sdp_z
