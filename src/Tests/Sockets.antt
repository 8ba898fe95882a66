-- ===== src/Tests/Sockets.antt =====
-- A WebSocket that sends, receives and closes.
use bff_rtc_base.Base.{
  ◌≡◌, refl, true, false, List, [], ◌∷◌, none, some, codes, arith, pos, is_empty, ◌≢◌,
}
use bff_rtc_base.WebSocket.{Socket, SocketState, SendItem, FrameKind}
use bff_rtc_base.WebSocket.Send.{
  Curl, CurlSend, SendCode, ItemEnd, drain, flush_send_queue, close_payload,
}
use bff_rtc_base.WebSocket.Frames.{FrameType, parse_close}
use bff_rtc_base.WebSocket.Frames.Close.{parse_close-close_payload}
use bff_rtc_base.WebSocket.Frames.Whole.{
  Piece, calls_for, delivered, bytes_of, take_inputs-calls_for,
}
use bff_rtc_base.WebSocket.Worker.{Round, Input, AppCall, take_inputs}
use bff_rtc_base.WebSocket.Life.{Act, Run, reopened, open_socket, life, close, work}
use bff_rtc_base.WebSocket.Told.{End, IsTold, ends_of}
use bff_rtc_base.WebSocket.Told.Ends.{life-IsTold, life-close, life-work}
use bff_rtc_base.WebSocket.Stream.{stream_of, wire_stream, queue_stream}
use bff_rtc_base.WebSocket.Stream.Order.{SendStep, send_steps, submitted, send_steps-stream}
use bff_rtc_base.WebSocket.Stream.Through.{
  Advances, IsWritable, drain-ends, flush_send_queue-through,
}

-- As the constructor leaves it.
abbrev fresh : Socket
fresh = record {
  aborted = false;
  running = false;
  state = SocketState.closed;
  joinable = false;
  alive = false;
  last_error = [];
  last_error_code = pos 0;
  rx_buf = [];
  rx_is_binary = false;
  rx_expected_offset = 0;
  close_buf = [];
  close_expected_offset = 0;
  sendq = [];
  close_called = false;
  local_close_requested = false;
  local_close_code = pos 1000;
  local_close_reason = [];
  open_notified = false;
  error_reported = false;
  events = [];
  wire = [];
}

-- Takes two bytes at once.
abbrev two_at_once : CurlSend
two_at_once wire item = record { sent = 2; code = SendCode.ok }

two_at_once-Advances : Advances two_at_once
two_at_once-Advances wire item h = omega arith

two_at_once-IsWritable : IsWritable two_at_once
two_at_once-IsWritable wire item = refl

abbrev curl : Curl
curl = record {
  ws_send = two_at_once;
  weird_reply = (pos 8, codes "WebSocket handshake failed");
  http_returned_error = (pos 22, codes "HTTP response code said error");
}

-- The upgrade comes through, then the peer closes.
abbrev upgraded : Round
upgraded = record {
  calls = AppCall.sends (codes "hello") false ∷ [];
  inputs = Input.progress true ∷ [];
  perform_error = none;
  response = pos 101;
  still_running = true;
  finished = none;
  poll_error = none;
  woken = true;
}

abbrev ended : Round
ended = record upgraded { calls = []; finished = some (pos 0) }

abbrev broken : Round
broken = record ended { finished = some (pos 56) }

abbrev run : Run
run = record { start = none; rounds = upgraded ∷ (ended ∷ []); rc_text = []; response = pos 101 }

abbrev opened : Socket
opened = reopened fresh

open_fresh : open_socket fresh ≡ some opened
unfolding open_socket
open_fresh = refl

life-IsTold_example :
    IsTold (life curl (Act.works run ∷ (Act.closes (pos 1000) [] run ∷ [])) opened)
life-IsTold_example =
    life-IsTold curl (Act.works run ∷ (Act.closes (pos 1000) [] run ∷ [])) fresh opened open_fresh

life-close_example :
    let end =
      close curl (pos 1000) [] run (life curl (Act.sends (codes "hello") false ∷ []) opened) in
    (is_empty (ends_of end.events) ≡ false)
    × (end.sendq ≡ [])
    × (end.running ≡ false)
    × (end.state ≡ SocketState.closed)
life-close_example =
    life-close curl (pos 1000) [] run (Act.sends (codes "hello") false ∷ []) fresh opened open_fresh

life-work_example :
    let end = work curl run (life curl (Act.sends (codes "hello") false ∷ []) opened) in
    (is_empty (ends_of end.events) ≡ false) × (end.alive ≡ false) × (end.state ≡ SocketState.closed)
unfolding life reopened
life-work_example =
    life-work curl run (Act.sends (codes "hello") false ∷ []) fresh opened open_fresh refl

-- The peer closes, and what still waits cannot be sent.
abbrev cut_off : Round
cut_off = record upgraded {
  inputs =
      Input.progress true
      ∷ (Input.written (some (record { type = FrameType.close_type; offset = 0; bytesleft = 0 }))
            (3 ∷ (232 ∷ []))
          ∷ []);
}

abbrev refusing : Curl
refusing = record curl {
  ws_send =
      λ wire item. record { sent = 0; code = SendCode.fatal (pos 55) (codes "Failed sending") };
}

abbrev told_twice : Socket
told_twice = life refusing (Act.works (record run { rounds = cut_off ∷ [] }) ∷ []) opened

-- Both callbacks are called.
told_twice-ends : ends_of told_twice.events ≡ End.on_error ∷ (End.on_close ∷ [])
unfolding life reopened
told_twice-ends = refl

abbrev running : Socket
running = record fresh { running = true; open_notified = true }

abbrev steps : List SendStep
steps =
    SendStep.submits (codes "abc") false
    ∷ (SendStep.flushes (pos 101) ∷ (SendStep.submits (codes "d") true ∷ []))

send_steps-stream_example : stream_of (send_steps two_at_once steps running) ≡ submitted steps
unfolding submitted wire_stream queue_stream
send_steps-stream_example = send_steps-stream two_at_once steps running refl

abbrev hello : SendItem
hello = record { kind = FrameKind.text; payload = codes "hello" }

drain-ends_example : (drain two_at_once (hello ∷ []) []).2 ≢ ItemEnd.unfinished
drain-ends_example = drain-ends two_at_once (hello ∷ []) [] two_at_once-Advances

flush_send_queue-through_example :
    let after = flush_send_queue two_at_once (pos 101) (record running { sendq = hello ∷ [] }) in
    (after.sendq ≡ [])
    × (wire_stream after.wire ≡ stream_of (record running { sendq = hello ∷ [] }))
flush_send_queue-through_example =
    flush_send_queue-through two_at_once (pos 101) (record running { sendq = hello ∷ [] })
      two_at_once-Advances two_at_once-IsWritable refl

parse_close-close_payload_example :
    parse_close (close_payload (pos 1001) (codes "bye")) ≡ (pos 1001, codes "bye")
parse_close-close_payload_example = parse_close-close_payload 1001 (codes "bye") (omega arith)

abbrev pieces : List Piece
pieces = Piece.control 0 0 (codes "ping") ∷ (Piece.part (codes "lo") ∷ [])

take_inputs-calls_for_example :
    take_inputs (calls_for false 0 (Piece.part (codes "hel") ∷ pieces)) running
    ≡ delivered (codes "hello") false running
unfolding bytes_of
take_inputs-calls_for_example =
    take_inputs-calls_for false (codes "hel") pieces running refl
      (omega arith, (tt, (omega arith, tt)))
