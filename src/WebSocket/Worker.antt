-- ===== src/WebSocket/Worker.antt =====
-- The life of a connection (lines 446 to 740): opening, the loop of the worker thread, and closing.
use bff_rtc_base.Base.{
  Bool, true, false, ◌||◌, ◌&&◌, not, List, [], ◌∷◌, Option, none, some, Bytes, if◌then◌else◌, ◌==◌,
  int_eq, ℤ, pos, leb_ℤ,
}
use bff_rtc_base.WebSocket.{
  Socket, SocketState, SocketError, notify_open, fire_error, fire_close, handshake_http_code,
}
use bff_rtc_base.WebSocket.Send.{Curl, flush_send_queue, queue_close_frame, send}
use bff_rtc_base.WebSocket.Frames.{FrameMeta, write_cb}

-- What libcurl calls while it performs: `xferinfo_cb`, with whether the upgrade is through, and
-- `write_cb`.
pub data Input : Type 0 where
  progress : (upgraded : Bool) → Input
  written : Option FrameMeta → (chunk : Bytes) → Input

-- What the application calls meanwhile.
pub data AppCall : Type 0 where
  sends : (payload : Bytes) → (binary : Bool) → AppCall
  closes : (code : ℤ) → (reason : Bytes) → AppCall

-- One round of the loop, as libcurl and the application make it: `response` is the response code,
-- `finished` the result of the transfer, an error has its code and its text.
pub record Round : Type 0 where
  pub calls : List AppCall
  pub inputs : List Input
  pub perform_error : Option (ℤ × Bytes)
  pub response : ℤ
  pub still_running : Bool
  pub finished : Option ℤ
  pub poll_error : Option (ℤ × Bytes)
  pub woken : Bool

unfoldable pub take_inputs : List Input → Socket → Socket
unfolding notify_open write_cb
take_inputs [] s = s
take_inputs (Input.progress upgraded ∷ inputs) s =
    take_inputs inputs (if upgraded then notify_open s else s)
take_inputs (Input.written meta chunk ∷ inputs) s = take_inputs inputs (write_cb meta chunk s)

-- The second half of `requestClose`, in a state that is neither closed nor closing.
unfoldable pub begin_close : ℤ → Bytes → Socket → Socket
unfolding queue_close_frame
begin_close code reason s =
    let closing = record s { state = SocketState.closing } in
    let queued = if s.running then queue_close_frame code reason closing else closing in
    record (if s.joinable then queued else s) { aborted = true }

unfoldable pub stop_in : SocketState → ℤ → Bytes → Socket → Socket
unfolding begin_close
stop_in SocketState.closed code reason s = s
stop_in SocketState.closing code reason s = record s { aborted = true }
stop_in SocketState.connecting code reason s = begin_close code reason s
stop_in SocketState.is_open code reason s = begin_close code reason s

-- `requestClose`, which is all of `closeAsync`
unfoldable pub request_close : ℤ → Bytes → Socket → Socket
unfolding stop_in
request_close code reason s = stop_in s.state code reason (record s {
  local_close_requested = true;
  local_close_code = code;
  local_close_reason = reason;
})

unfoldable pub take_calls : List AppCall → Socket → Socket
unfolding send request_close
take_calls [] s = s
take_calls (AppCall.sends payload binary ∷ calls) s = take_calls calls (send payload binary s).0
take_calls (AppCall.closes code reason ∷ calls) s = take_calls calls (request_close code reason s)

abbrev pub error_of : ℤ → ℤ × Bytes → Socket → SocketError
error_of response (code, detail) s = record {
  curl_code = code;
  http_code = handshake_http_code response s;
  detail = detail;
}

-- The result of the transfer and the response code at its end, 0 where it has none yet.
abbrev pub Outcome : Type 0
Outcome = ℤ × ℤ

module _ (curl : Curl) where
  unfoldable pub after_poll : Option (ℤ × Bytes) → Bool → ℤ → Socket → Socket × Bool
  unfolding fire_error flush_send_queue
  after_poll (some e) woken response s = (fire_error (error_of response e s) s, false)
  after_poll none woken response s =
      (if woken then flush_send_queue curl.ws_send response s else s, true)

  -- Behind `curl_multi_info_read`, with its result.
  unfoldable pub after_messages : Option ℤ → Round → Socket → Socket × Outcome × Bool
  unfolding after_poll
  after_messages (some rc) r s = (s, (rc, handshake_http_code r.response s), false)
  after_messages none r s =
      let (polled, goes_on) = after_poll r.poll_error r.woken r.response s in
      if not r.still_running || s.aborted
      then (s, (pos 0, pos 0), false)
      else (polled, (pos 0, pos 0), goes_on)

  -- The body of the loop behind `curl_multi_perform`, and whether the loop goes on.
  unfoldable pub after_perform : Option (ℤ × Bytes) → Round → Socket → Socket × Outcome × Bool
  unfolding fire_error flush_send_queue after_messages
  after_perform (some e) r s = (fire_error (error_of r.response e s) s, (pos 0, pos 0), false)
  after_perform none r s = after_messages r.finished r (flush_send_queue curl.ws_send r.response s)

  unfoldable pub round : Round → Socket → Socket × Outcome × Bool
  unfolding take_inputs after_perform
  round r s = after_perform r.perform_error r (take_inputs r.inputs s)

  -- `while (!abort && still_running)`, for as many rounds as there are.
  unfoldable pub run_rounds : List Round → Socket → Socket × Outcome
  unfolding take_calls round
  run_rounds [] s = (s, (pos 0, pos 0))
  run_rounds (r ∷ rounds) s0 =
      let s = take_calls r.calls s0 in
      let (next, outcome, goes_on) = round r s in
      let rest = run_rounds rounds next in
      if s.aborted then (s, (pos 0, pos 0)) else if goes_on then rest else (next, outcome)

  -- Which callback the thread calls last. `rc_text` is the text of the result.
  unfoldable pub report_end : (rc_text : Bytes) → Outcome → Socket → Socket
  unfolding fire_error fire_close
  report_end rc_text (rc, http_code) s =
      let (code, text) =
        if leb_ℤ (pos 1) http_code then curl.http_returned_error else curl.weird_reply in
      if not s.aborted && not (rc == pos 0)
      then fire_error (record { curl_code = rc; http_code = http_code; detail = rc_text }) s
      else if s.close_called || s.error_reported
      then s
      else if s.local_close_requested
      then fire_close s.local_close_code s.local_close_reason false s
      else if s.open_notified
      then fire_close (pos 1000) [] true s
      else fire_error (record { curl_code = code; http_code = http_code; detail = text }) s

  -- Behind the loop, once the rest is sent; `response` is the response code then.
  abbrev pub outcome_at : (response : ℤ) → Outcome → Socket → Outcome
  outcome_at response (rc, http_code) s =
      (rc, if http_code == pos 0 then handshake_http_code response s else http_code)

  unfoldable pub finish : (rc_text : Bytes) → (response : ℤ) → Outcome → Socket → Socket
  unfolding flush_send_queue report_end
  finish rc_text response outcome s0 =
      let s = flush_send_queue curl.ws_send response s0 in
      let stopped = record s { running = false } in
      record (report_end rc_text (outcome_at response outcome s) stopped) {
        state = SocketState.closed;
        alive = false;
      }
