-- ===== src/Tests/Replies.antt =====
-- The responses of a server.
use bff_rtc_base.Base.{◌≡◌, refl, true, [], ◌∷◌, Option, none, some, Bytes, codes, pos}
use bff_rtc_base.Signal.Race.{Leg}
use bff_rtc_base.Signal.Request.{SessionDescription}
use bff_rtc_base.Signal.State.{Private}
use bff_rtc_base.Signal.Connect.{disconnect}
use bff_rtc_base.Signal.Connect.Quiet.{opens}
use bff_rtc_base.Signal.Response.{Response, Reply, Codec}
use bff_rtc_base.Signal.Receive.{Moment, handle_response, on_transport_recv}
use bff_rtc_base.Signal.Receive.Quiet.{Course, disconnect_stays_closed}
use bff_rtc_base.Signal.Receive.Offers.{handle_response-offer_again}
use bff_rtc_base.Tests.Connections.{up, config, curl_codes, idle}

-- An answer to the request with the number of the only byte.
abbrev answer_of : Bytes → Option Response
answer_of (id ∷ []) =
    some (record { id = id; channel = 1; from = []; reply = Reply.response (some (pos 603)) })
answer_of _ = none

abbrev codec : Codec
codec = record {
  unpack_response = answer_of;
  response_of_json = λ text. none;
  candidate_json = λ text. none;
  zstd_decode = λ z. codes "v=0";
}

abbrev moment : Moment
moment = record { during = []; steady_ms = 5; ms32 = 7 }

abbrev offered : SessionDescription → Response
offered desc = record { id = 0; channel = 1; from = codes "p"; reply = Reply.offer (some desc) }

abbrev plain : SessionDescription
plain = record { sdp = codes "v=0"; sdp_z = [] }

abbrev packed : SessionDescription
packed = record { sdp = []; sdp_z = 1 ∷ [] }

abbrev live : Private
live = record idle { race = record idle.race { session_open = true } }

disconnect_stays_closed_example :
    let e =
      on_transport_recv up config curl_codes codec moment Leg.curl
        (3 ∷ [])
        true
        (disconnect up config curl_codes [] live) in
    (e.life.user_closed ≡ true) × (opens e.trace ≡ opens live.trace)
disconnect_stays_closed_example =
    disconnect_stays_closed up config curl_codes codec [] live
      (on_transport_recv up config curl_codes codec moment Leg.curl (3 ∷ []) true
        (disconnect up config curl_codes [] live))
      (Course.received moment Leg.curl (3 ∷ []) true (disconnect up config curl_codes [] live) (
        Course.start 0 (
          on_transport_recv up config curl_codes codec moment Leg.curl (3 ∷ []) true
            (disconnect up config curl_codes [] live))))

handle_response-offer_again_example :
    (handle_response up config curl_codes codec moment
      (offered packed)
      (handle_response up config curl_codes codec moment (offered plain) live)).trace
    ≡ (handle_response up config curl_codes codec moment (offered plain) live).trace
handle_response-offer_again_example =
    handle_response-offer_again up config curl_codes codec moment moment (offered plain)
      (offered packed) (some plain) (some packed) live refl refl refl refl
