-- ===== src/Signal/Builders.antt =====
-- The methods that build a request and send it (Signal.cpp lines 936 to 962, 1201 to 1237, 1252 to
-- 1439 and 1688 to 1708). `encode` is the compression of ZstdCodec.cpp, empty where it fails.
use bff_rtc_base.Base.{
  ℕ, Bool, true, false, ◌||◌, List, [], ◌∷◌, ◌++◌, Bytes, codes, if◌then◌else◌, is_empty, map, ℤ,
  pos, is_negative, to_u32, pos_part, lookup, ◌==◌, int_eq,
}
use mathlib.Core.Option
use bff_rtc_base.Signal.Config.{Config}
use bff_rtc_base.Signal.Request.{Message, Options, SessionDescription, SignalRequest}
use bff_rtc_base.Signal.State.{Private}
use bff_rtc_base.Signal.Links.{Links}
use bff_rtc_base.Signal.Send.{send_request, request_or_again}

abbrev pub request : ℤ → Bytes → Message → SignalRequest
request channel to message = record { id = 0; channel = to_u32 channel; to = to; message = message }

-- A negative time counts as 0.
abbrev pub clamp_rtt : Bytes × ℤ → Bytes × ℕ
clamp_rtt (ip, rtt) = (ip, pos_part rtt)

module _ (links : Links) (config : Config) (encode : Bytes → Bytes) where
  unfoldable pub req_options : Private → Bool → Options
  req_options d recreating =
      let codecs1 = if is_empty d.requests.vcodecs then codes "h264" ∷ [] else d.requests.vcodecs in
      record {
        codecs = codecs1 ++ codes "opus" ∷ [];
        auto_subscribe = config.signal.auto_subscribe || d.requests.subscribing;
        publishing_audio = true;
        publishing_video = true;
        recreating = recreating;
        ip = links.best_node d.trace;
        ice_policy = config.ice_policy;
        video_orientation = d.requests.orientation;
        location = d.requests.location;
      }

  unfoldable pub send_join : ℤ → Private → Private
  unfolding req_options send_request
  send_join channel d0 =
      let d = record d0 { requests = record d0.requests { join_requested = true } } in
      (send_request links d
        (request channel [] (Message.join (req_options d d.requests.recreating))) true).0

  unfoldable pub send_joins : List ℤ → Private → Private
  unfolding send_join
  send_joins [] d = d
  send_joins (channel ∷ channels) d = send_joins channels (send_join channel d)

  unfoldable pub join_all_channels_if_needed : Private → Private × Bool
  unfolding send_joins
  join_all_channels_if_needed d = if d.requests.join_all_requested then (d, false) else (
    send_joins d.listeners
        (record d { requests = record d.requests { join_all_requested = true } }),
    true,
  )

  unfoldable pub join : ℤ → Private → Private
  unfolding join_all_channels_if_needed send_join
  join channel d =
      if is_negative channel then (join_all_channels_if_needed d).0 else send_join channel d

  unfoldable pub recreate : ℤ → Private → Private
  unfolding req_options send_request
  recreate channel d0 =
      let options = req_options d0 true in
      let d = record d0 { requests = record d0.requests { recreating = true } } in
      (send_request links d (request channel [] (Message.recreate options)) false).0

  -- Compressed where that is configured and succeeds, and plain otherwise.
  unfoldable pub describe : Bytes → SessionDescription
  describe sdp =
      let plain : SessionDescription = record { sdp = sdp; sdp_z = [] } in
      let sdp_z = encode sdp in
      if config.compression
      then if is_empty sdp_z then plain else record { sdp = []; sdp_z = sdp_z }
      else plain

  unfoldable pub offer : Bytes → ℤ → Bytes → Private → Private
  unfolding describe send_request
  offer sdp channel to d =
      (send_request links d (request channel to (Message.offer (describe sdp))) false).0

  unfoldable pub answer : Bytes → ℤ → Bytes → Private → Private
  unfolding describe send_request
  answer sdp channel to d =
      (send_request links d (request channel to (Message.answer (describe sdp))) true).0

  unfoldable pub candidate : Bytes → ℤ → Bytes → Private → Private
  unfolding send_request
  candidate text channel to d =
      (send_request links d (request channel to (Message.candidate text)) false).0

  unfoldable pub negotiation : Bool → ℤ → Bytes → Private → Private
  unfolding request_or_again
  negotiation on channel to d =
      (request_or_again links d (request channel to (Message.negotiation on))).0

  unfoldable pub subscribe : (audio video : Bool) → ℤ → Private → Private
  unfolding send_request
  subscribe audio video channel d =
      let sent =
        (send_request links d (request channel [] (Message.subscribe audio video)) false).0 in
      record sent { requests = record sent.requests { subscribing = audio || video } }

  unfoldable pub mute : (on : Bool) → (rtp_time : ℕ) → (video : Bool) → ℤ → Private → Private
  unfolding request_or_again
  mute on rtp_time video channel d =
      (request_or_again links d (request channel [] (Message.mute video on rtp_time))).0

  unfoldable pub select_channel : ℤ → ℤ → Private → Private
  unfolding request_or_again
  select_channel select channel d =
      (request_or_again links d (request channel [] (Message.select_channel (select == pos 1)))).0

  unfoldable pub srtp_key : Bytes → ℕ → ℤ → Private → Private
  unfolding send_request
  srtp_key key profile channel d =
      (send_request links d (request channel [] (Message.srtp_key profile key)) false).0

  unfoldable pub upload : (filename content : Bytes) → ℤ → Private → Private
  unfolding send_request
  upload filename content channel d =
      (send_request links d (request channel [] (Message.upload filename content)) false).0

  unfoldable pub node_rtts : List (Bytes × ℤ) → ℤ → Private → Private
  unfolding send_request
  node_rtts rtts channel d =
      (send_request links d (request channel [] (Message.node_rtts (map clamp_rtt rtts))) false).0

  abbrev pub rtt_for_channel : ℤ → Private → ℕ
  rtt_for_channel channel d = Option.get_or (lookup channel d.cache.rtts) 0

  -- `now` is what `timestampMs32` gives for each channel in turn.
  unfoldable pub send_pings : (now : ℤ → ℕ) → List ℤ → Private → Private
  unfolding send_request
  send_pings now [] d = d
  send_pings now (channel ∷ channels) d =
      let ping = Message.ping (now channel) (rtt_for_channel channel d) in
      send_pings now channels (send_request links d (request channel [] ping) false).0

  unfoldable pub send_ping : (now : ℤ → ℕ) → Private → Private
  unfolding send_pings
  send_ping now d = send_pings now d.listeners d
