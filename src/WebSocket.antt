-- ===== src/WebSocket.antt =====
-- WebSocket.cpp: a WebSocket over libcurl. This file has its state and what ends a connection
-- (lines 100 to 160, 175 to 184 and 317 to 359). Every callback is registered, as the constructor
-- of `Signal::Private` does it.
pub mod Send
pub mod Frames
pub mod Worker
pub mod Life
pub mod Told
pub mod Stream
use bff_rtc_base.Base.{ℕ, Bool, true, false, ◌||◌, List, [], ◌∷◌, Bytes, if◌then◌else◌, ℤ, pos}

pub data SocketState : Type 0 where
  connecting is_open closing closed : SocketState

pub record SocketError : Type 0 where
  pub curl_code : ℤ
  pub http_code : ℤ
  pub detail : Bytes

-- What the callbacks are called with; `opening` stands for a call of `open`.
pub data SocketEvent : Type 0 where
  opening opened : SocketEvent
  closed_with : (code : ℤ) → (reason : Bytes) → (remote : Bool) → SocketEvent
  failed : SocketError → SocketEvent
  received : (data_ : Bytes) → (binary : Bool) → SocketEvent

pub data FrameKind : Type 0 where
  text binary close_frame : FrameKind

pub record SendItem : Type 0 where
  pub kind : FrameKind
  pub payload : Bytes

-- `joinable` is that of the thread, `alive` whether its function is still running; `events` and
-- `wire`, what each call of `curl_ws_send` has taken, have the newest first.
pub record Socket : Type 0 where
  pub aborted : Bool
  pub running : Bool
  pub state : SocketState
  pub joinable : Bool
  pub alive : Bool
  pub last_error : Bytes
  pub last_error_code : ℤ
  pub rx_buf : Bytes
  pub rx_is_binary : Bool
  pub rx_expected_offset : ℕ
  pub close_buf : Bytes
  pub close_expected_offset : ℕ
  pub sendq : List SendItem
  pub close_called : Bool
  pub local_close_requested : Bool
  pub local_close_code : ℤ
  pub local_close_reason : Bytes
  pub open_notified : Bool
  pub error_reported : Bool
  pub events : List SocketEvent
  pub wire : List SendItem

abbrev pub emit_event : SocketEvent → Socket → Socket
emit_event e s = record s { events = e ∷ s.events }

unfoldable pub notify_open : Socket → Socket
notify_open s = if s.open_notified then s else record s {
  open_notified = true;
  state = SocketState.is_open;
  events = SocketEvent.opened ∷ s.events;
}

unfoldable pub fire_error : SocketError → Socket → Socket
fire_error err s = if s.error_reported then s else record s {
  error_reported = true;
  close_called = true;
  last_error_code = err.curl_code;
  last_error = err.detail;
  events = SocketEvent.failed err ∷ s.events;
}

unfoldable pub fire_close : (code : ℤ) → (reason : Bytes) → (remote : Bool) → Socket → Socket
fire_close code reason remote s = if s.close_called || s.error_reported then s else record s {
  close_called = true;
  events = SocketEvent.closed_with code reason remote ∷ s.events;
}

-- `handshakeHttpCode`, from the response code of libcurl, 0 where it gives none.
abbrev pub handshake_http_code : ℤ → Socket → ℤ
handshake_http_code response s = if s.open_notified then pos 0 else response
