-- ===== src/WebSocket/Told.antt =====
-- How often the application is told of the end of a connection (WebSocket.cpp): what the callbacks
-- have said since it was opened last.
pub mod Life
pub mod Ends
use bff_rtc_base.Base.{
  ◌≡◌, refl, true≢false, ◌==◌, nat_eq, Bool, true, false, ◌||◌, ◌⊎◌, inl, inr, List, [], ◌∷◌,
  Option, none, some, Bytes, ℤ, if-both, if-cases, Bool-cases, if◌then◌else◌, is_empty,
}
use bff_rtc_base.WebSocket.{
  Socket, SocketState, SocketEvent, SocketError, notify_open, fire_error, fire_close,
}
use bff_rtc_base.WebSocket.Send.{
  CurlSend, ItemEnd, after_drain, flush_send_queue, send, queue_close_frame, drain,
}
use bff_rtc_base.WebSocket.Frames.{
  FrameMeta, FrameType, receive_close, receive_data, receive_frame, write_cb,
}
use bff_rtc_base.WebSocket.Worker.{
  Input, AppCall, Round, Outcome, take_inputs, begin_close, stop_in, request_close, take_calls,
  after_poll, after_messages, after_perform, round, run_rounds, report_end, finish,
}
use bff_rtc_base.WebSocket.Life.{
  Run, fail_start, run_worker, work, join_thread, close_joined, close, Act, act, life,
}

pub data End : Type 0 where
  on_close on_error : End

-- The ends that a connection has reported since it was opened, the newest first.
abbrev pub ends_of : List SocketEvent → List End
ends_of [] = []
ends_of (SocketEvent.opening ∷ events) = []
ends_of (SocketEvent.closed_with code reason remote ∷ events) = End.on_close ∷ ends_of events
ends_of (SocketEvent.failed error ∷ events) = End.on_error ∷ ends_of events
ends_of (_ ∷ events) = ends_of events

-- What the two flags say of the ends: no callback is called twice, and `on_close` never behind
-- `on_error`.
abbrev pub Told : (close_called error_reported : Bool) → List End → Type 0
Told false false ends = ends ≡ []
Told true false ends = ends ≡ End.on_close ∷ []
Told true true ends = (ends ≡ End.on_error ∷ []) ⊎ (ends ≡ End.on_error ∷ (End.on_close ∷ []))
Told false true ends = ⊥

abbrev pub IsTold : Socket → Type 0
IsTold s = Told s.close_called s.error_reported (ends_of s.events)

Told-on_error :
    (cc er : Bool) (ends : List End)
    → er ≡ false
    → Told cc er ends
    → Told true true (End.on_error ∷ ends)
Told-on_error false false ends h told = inl (rw told refl)
Told-on_error true false ends h told = inr (rw told refl)
Told-on_error false true ends h told = absurd told
Told-on_error true true ends h told = absurd (true≢false h)

Told-on_close :
    (cc er : Bool) (ends : List End)
    → (cc || er) ≡ false
    → Told cc er ends
    → Told true er (End.on_close ∷ ends)
Told-on_close false false ends h told = rw told refl
Told-on_close false true ends h told = absurd told
Told-on_close true er ends h told = absurd (true≢false h)

pub fire_error-IsTold : (error : SocketError) (s : Socket) → IsTold s → IsTold (fire_error error s)
unfolding fire_error
fire_error-IsTold error s told =
    if-cases IsTold s.error_reported (λ h. told)
      (λ h. Told-on_error s.close_called s.error_reported (ends_of s.events) h told)

pub fire_close-IsTold :
    (code : ℤ) (reason : Bytes) (remote : Bool) (s : Socket)
    → IsTold s
    → IsTold (fire_close code reason remote s)
unfolding fire_close
fire_close-IsTold code reason remote s told =
    if-cases IsTold (s.close_called || s.error_reported) (λ h. told)
      (λ h. Told-on_close s.close_called s.error_reported (ends_of s.events) h told)

notify_open-IsTold : (s : Socket) → IsTold s → IsTold (notify_open s)
unfolding notify_open
notify_open-IsTold s told = if-both IsTold s.open_notified told told

receive_close-IsTold :
    (meta : FrameMeta) (chunk : Bytes) (s : Socket) → IsTold s → IsTold (receive_close meta chunk s)
unfolding receive_close
receive_close-IsTold meta chunk s told =
    if-both IsTold (meta.bytesleft == 0) (fire_close-IsTold _ _ true s told) told

receive_data-IsTold :
    (is_bin : Bool) (meta : FrameMeta) (chunk : Bytes) (s : Socket)
    → IsTold s
    → IsTold (receive_data is_bin meta chunk s)
unfolding receive_data
receive_data-IsTold is_bin meta chunk s told = if-both IsTold (meta.bytesleft == 0) told told

receive_frame-IsTold :
    (type : FrameType) (meta : FrameMeta) (chunk : Bytes) (s : Socket)
    → IsTold s
    → IsTold (receive_frame type meta chunk s)
unfolding receive_frame
receive_frame-IsTold FrameType.ping_pong meta chunk s told = told
receive_frame-IsTold FrameType.close_type meta chunk s told = receive_close-IsTold meta chunk s told
receive_frame-IsTold FrameType.text meta chunk s told = receive_data-IsTold false meta chunk s told
receive_frame-IsTold FrameType.binary meta chunk s told = receive_data-IsTold true meta chunk s told

write_cb-IsTold :
    (meta : Option FrameMeta) (chunk : Bytes) (s : Socket)
    → IsTold s
    → IsTold (write_cb meta chunk s)
unfolding write_cb
write_cb-IsTold none chunk s told = told
write_cb-IsTold (some meta) chunk s told =
    if-both IsTold (is_empty chunk) told
      (receive_frame-IsTold meta.type meta chunk (notify_open s) (notify_open-IsTold s told))

pub after_drain-IsTold :
    (response : ℤ) (end : ItemEnd) (s : Socket) → IsTold s → IsTold (after_drain response end s)
after_drain-IsTold response (ItemEnd.broken code detail) s told = fire_error-IsTold _ s told
after_drain-IsTold response ItemEnd.done s told = told
after_drain-IsTold response ItemEnd.retry s told = told
after_drain-IsTold response ItemEnd.unfinished s told = told

pub send-IsTold :
    (payload : Bytes) (is_bin : Bool) (s : Socket) → IsTold s → IsTold (send payload is_bin s).0
unfolding send
send-IsTold payload is_bin s told = if-both (λ (r : Socket × Bool). IsTold r.0) s.running told told

queue_close_frame-IsTold :
    (code : ℤ) (reason : Bytes) (s : Socket) → IsTold s → IsTold (queue_close_frame code reason s)
unfolding queue_close_frame
queue_close_frame-IsTold code reason s told = told

begin_close-IsTold :
    (code : ℤ) (reason : Bytes) (s : Socket) → IsTold s → IsTold (begin_close code reason s)
unfolding begin_close
begin_close-IsTold code reason s told =
    if-both IsTold s.joinable
      (if-both IsTold s.running (queue_close_frame-IsTold code reason s told) told) told

stop_in-IsTold :
    (state : SocketState) (code : ℤ) (reason : Bytes) (s : Socket)
    → IsTold s
    → IsTold (stop_in state code reason s)
unfolding stop_in
stop_in-IsTold SocketState.closed code reason s told = told
stop_in-IsTold SocketState.closing code reason s told = told
stop_in-IsTold SocketState.connecting code reason s told = begin_close-IsTold code reason s told
stop_in-IsTold SocketState.is_open code reason s told = begin_close-IsTold code reason s told

pub request_close-IsTold :
    (code : ℤ) (reason : Bytes) (s : Socket) → IsTold s → IsTold (request_close code reason s)
unfolding request_close
request_close-IsTold code reason s told = stop_in-IsTold s.state code reason _ told

pub take_inputs-IsTold :
    (inputs : List Input) (s : Socket) → IsTold s → IsTold (take_inputs inputs s)
unfolding take_inputs
take_inputs-IsTold [] s told = told
take_inputs-IsTold (Input.progress upgraded ∷ inputs) s told =
    take_inputs-IsTold inputs _ (if-both IsTold upgraded (notify_open-IsTold s told) told)
take_inputs-IsTold (Input.written meta chunk ∷ inputs) s told =
    take_inputs-IsTold inputs _ (write_cb-IsTold meta chunk s told)

pub take_calls-IsTold : (calls : List AppCall) (s : Socket) → IsTold s → IsTold (take_calls calls s)
unfolding take_calls
take_calls-IsTold [] s told = told
take_calls-IsTold (AppCall.sends payload is_bin ∷ calls) s told =
    take_calls-IsTold calls _ (send-IsTold payload is_bin s told)
take_calls-IsTold (AppCall.closes code reason ∷ calls) s told =
    take_calls-IsTold calls _ (request_close-IsTold code reason s told)
