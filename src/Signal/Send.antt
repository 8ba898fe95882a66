-- ===== src/Signal/Send.antt =====
-- The way of a request to the server (Signal.cpp lines 665 to 678 and 1739 to 1822).
pub mod Flush
pub mod Kept
use bff_rtc_base.Base.{
  ℕ, ◌+◌, ◌%◌, ◌^◌, Bool, true, false, ◌&&◌, List, [], ◌∷◌, ◌++◌, Option, none, some, Bytes, not,
  if◌then◌else◌, ◌==◌, nat_eq, set_insert,
}
use bff_rtc_base.Signal.Race.{Leg, Race}
use bff_rtc_base.Signal.Request.{Message, SignalRequest}
use bff_rtc_base.Signal.State.{Private, Requests, Effect, sent, handed, emit}
use bff_rtc_base.Signal.Links.{Links}

-- `Join` and `Recreate`
abbrev pub is_joining : Message → Bool
is_joining (Message.join o) = true
is_joining (Message.recreate o) = true
is_joining _ = false

-- `if (req.id == 0) req.id = d->msg_id.fetch_add(1)`
unfoldable pub number_request : Private → SignalRequest → Private × SignalRequest
number_request d req =
    let requests = record d.requests { msg_id = (d.requests.msg_id + 1) % 2 ^ 32 } in
    if req.id == 0
    then (record d { requests = requests }, record req { id = d.requests.msg_id })
    else (d, req)

-- What a request leaves behind.
unfoldable pub after_send : Private → SignalRequest → (important ok : Bool) → Private
after_send d req important ok =
    let rs = d.requests in
    record d {
      requests = record rs {
        important_reqs =
            if ok && important then set_insert req.id rs.important_reqs else rs.important_reqs;
        recreating = if ok && rs.recreating && is_joining req.message then false else rs.recreating;
      };
    }

unfoldable pub push_pending : Private → Option Bytes → Private
push_pending d none = d
push_pending d (some packed) = record d {
  requests = record d.requests { pending_reqs = d.requests.pending_reqs ++ packed ∷ [] };
}

abbrev pub leave_request : SignalRequest
leave_request = record { id = 0; channel = 0; to = []; message = Message.leave }

module _ (links : Links) where
  unfoldable pub primary_running : Private → Bool
  primary_running d = links.is_running d.race.primary_leg d.trace

  unfoldable pub send_on_primary : Bytes → Bool → Private → Private × Bool
  unfolding emit
  send_on_primary payload binary d =
      let next = emit (sent d.race.primary_leg payload binary) d in
      (next, links.sends d.race.primary_leg next.trace)

  -- `none` where the request cannot be put into bytes.
  unfoldable pub payload_of : Private → SignalRequest → Option Bytes
  payload_of d req = if d.requests.use_json then links.to_json req else links.pack req

  unfoldable pub send_payload :
      Private → SignalRequest → Bool → Option Bytes → Private × SignalRequest × Bool
  unfolding after_send send_on_primary
  send_payload d req important none = (d, req, false)
  send_payload d req important (some payload) =
      let (next, ok) = send_on_primary payload (not d.requests.use_json) d in
      (after_send next req important ok, req, ok)

  unfoldable pub hand_over :
      Private → SignalRequest → Bool → Option (List Effect → Bool) → Private × SignalRequest × Bool
  unfolding after_send emit
  hand_over d req important none = (d, req, false)
  hand_over d req important (some send) =
      let next = emit (handed req) d in
      (after_send next req important (send next.trace), req, send next.trace)

  unfoldable pub send_numbered : Private → SignalRequest → Bool → Private × SignalRequest × Bool
  unfolding primary_running send_payload hand_over
  send_numbered d req important =
      if primary_running d
      then send_payload d req important (payload_of d req)
      else hand_over d req important links.send_request_fn

  -- `true` where the request is sent. The request comes back with its number.
  unfoldable pub send_request : Private → SignalRequest → Bool → Private × SignalRequest × Bool
  unfolding number_request send_numbered
  send_request d0 req0 important =
      let (d, req) = number_request d0 req0 in send_numbered d req important

  unfoldable pub keep_unsent : Private × SignalRequest × Bool → Private × Bool
  unfolding push_pending
  keep_unsent (d, req, ok) = if ok then (d, true) else (push_pending d (links.pack req), false)

  -- A request that is not sent is kept for later.
  unfoldable pub request_or_again : Private → SignalRequest → Private × Bool
  unfolding send_request keep_unsent
  request_or_again d req = keep_unsent (send_request d req false)

  unfoldable pub resend : List Bytes → Private → Private
  unfolding request_or_again
  resend [] d = d
  resend (bytes ∷ pending) d = elim (links.unpack bytes) [
    | none ↦ resend pending d
    | some req ↦ resend pending (request_or_again d req).0
  ]

  unfoldable pub flush_pending_reqs : Private → Private
  unfolding resend
  flush_pending_reqs d =
      resend d.requests.pending_reqs
        (record d { requests = record d.requests { pending_reqs = [] } })

  -- The number of the request, 0 where it is not sent.
  unfoldable pub send_leave : Private → Private × ℕ
  unfolding send_request
  send_leave d0 =
      let (d, req, ok) = send_request d0 leave_request false in (d, if ok then req.id else 0)
