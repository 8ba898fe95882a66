-- ===== src/WebSocket/Stream/Order.antt =====
-- The order of what is sent (WebSocket.cpp, lines 416 to 441 and 764 to 783): `send` and the
-- worker's flushes, in any mix.
use bff_rtc_base.Base.{
  ◌≡◌, refl, sym, ap, ◌∙◌, Bool, true, List, [], ◌∷◌, ◌++◌, append_assoc, append-nil, Bytes, ℤ,
  if-both, if-cases, true≢false, if◌then◌else◌,
}
use bff_rtc_base.WebSocket.{Socket, SendItem, FrameKind, SocketError, fire_error}
use bff_rtc_base.WebSocket.Send.{
  CurlSend, ItemEnd, drain, after_drain, flush_send_queue, send, push_item,
}
use bff_rtc_base.WebSocket.Stream.{Tagged, tag, wire_stream, queue_stream, stream_of, drain-stream}

-- What touches the queue between the opening and the closing of a connection.
pub data SendStep : Type 0 where
  submits : (payload : Bytes) → (is_bin : Bool) → SendStep
  flushes : (response : ℤ) → SendStep

unfoldable pub send_steps : CurlSend → List SendStep → Socket → Socket
unfolding send flush_send_queue
send_steps curl_ws_send [] s = s
send_steps curl_ws_send (SendStep.submits payload is_bin ∷ steps) s =
    send_steps curl_ws_send steps (send payload is_bin s).0
send_steps curl_ws_send (SendStep.flushes response ∷ steps) s =
    send_steps curl_ws_send steps (flush_send_queue curl_ws_send response s)

abbrev pub item_of : Bytes → Bool → SendItem
item_of payload is_bin = record {
  kind = if is_bin then FrameKind.binary else FrameKind.text;
  payload = payload;
}

-- The abstract view: a stream that only grows at its end.
unfoldable pub submitted : List SendStep → List Tagged
submitted [] = []
submitted (SendStep.submits payload is_bin ∷ steps) =
    tag (item_of payload is_bin) ++ submitted steps
submitted (SendStep.flushes response ∷ steps) = submitted steps

record Keeps (a b : Socket) : Type 0 where
  running : b.running ≡ a.running
  stream : stream_of b ≡ stream_of a

fire_error-Keeps : (error : SocketError) (s : Socket) → Keeps s (fire_error error s)
unfolding fire_error
fire_error-Keeps error s =
    if-both (λ (r : Socket). Keeps s r) s.error_reported (record { running = refl; stream = refl })
      (record { running = refl; stream = refl })

after_drain-Keeps :
    (response : ℤ) (end : ItemEnd) (s : Socket) → Keeps s (after_drain response end s)
after_drain-Keeps response (ItemEnd.broken code detail) s =
    let kept = fire_error-Keeps (record { curl_code = code; http_code = _; detail = detail }) s in
    record { running = kept.running; stream = kept.stream }
after_drain-Keeps response ItemEnd.done s = record { running = refl; stream = refl }
after_drain-Keeps response ItemEnd.retry s = record { running = refl; stream = refl }
after_drain-Keeps response ItemEnd.unfinished s = record { running = refl; stream = refl }

flush_send_queue-Keeps :
    (curl_ws_send : CurlSend) (response : ℤ) (s : Socket)
    → Keeps s (flush_send_queue curl_ws_send response s)
unfolding flush_send_queue
flush_send_queue-Keeps curl_ws_send response s =
    let r = drain curl_ws_send s.sendq s.wire in
    let kept = after_drain-Keeps response r.2 (record s { sendq = r.0; wire = r.1 }) in
    if-both (λ (x : Socket). Keeps s x) s.open_notified
      (record {
        running = kept.running;
        stream = kept.stream ∙ drain-stream curl_ws_send s.sendq s.wire;
      })
      (record { running = refl; stream = refl })

queue_stream-append :
    (items : List SendItem) (item : SendItem)
    → queue_stream (items ++ item ∷ []) ≡ queue_stream items ++ tag item
unfolding queue_stream
queue_stream-append [] item = append-nil (tag item)
queue_stream-append (i ∷ items) item =
    ap (λ x. tag i ++ x) (queue_stream-append items item)
    ∙ sym (append_assoc (tag i) (queue_stream items) (tag item))

push_item-stream :
    (item : SendItem) (s : Socket) → stream_of (push_item item s) ≡ stream_of s ++ tag item
push_item-stream item s =
    ap (λ x. wire_stream s.wire ++ x) (queue_stream-append s.sendq item)
    ∙ sym (append_assoc (wire_stream s.wire) (queue_stream s.sendq) (tag item))

send-stream :
    (payload : Bytes) (is_bin : Bool) (s : Socket)
    → s.running ≡ true
    → let next = (send payload is_bin s).0 in
      (stream_of next ≡ stream_of s ++ tag (item_of payload is_bin)) × (next.running ≡ true)
unfolding send
send-stream payload is_bin s running =
    if-cases
      (λ (r : Socket × Bool).
        (stream_of r.0 ≡ stream_of s ++ tag (item_of payload is_bin)) × (r.0.running ≡ true))
      s.running (λ _. (push_item-stream (item_of payload is_bin) s, running))
      (λ h. absurd (true≢false (sym running ∙ h)))

-- While a connection runs, what libcurl has taken followed by what waits is, after any mix of
-- calls of `send` and of flushes, what it was before followed by all that was submitted, byte by
-- byte, in the order of the calls and with the kind of each: nothing is lost, doubled or
-- reordered, whatever `curl_ws_send` answers.
pub send_steps-stream :
    (curl_ws_send : CurlSend) (steps : List SendStep) (s : Socket)
    → s.running ≡ true
    → stream_of (send_steps curl_ws_send steps s) ≡ stream_of s ++ submitted steps
unfolding send_steps submitted
send_steps-stream curl_ws_send [] s running = sym (append-nil (stream_of s))
send_steps-stream curl_ws_send (SendStep.flushes response ∷ steps) s running =
    let kept = flush_send_queue-Keeps curl_ws_send response s in
    send_steps-stream curl_ws_send steps (flush_send_queue curl_ws_send response s)
      (kept.running ∙ running)
    ∙ ap (λ x. x ++ submitted steps) kept.stream
send_steps-stream curl_ws_send (SendStep.submits payload is_bin ∷ steps) s running =
    let (more, runs) = send-stream payload is_bin s running in
    send_steps-stream curl_ws_send steps (send payload is_bin s).0 runs
    ∙ ap (λ x. x ++ submitted steps) more
    ∙ append_assoc (stream_of s) (tag (item_of payload is_bin)) (submitted steps)
