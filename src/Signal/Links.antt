-- ===== src/Signal/Links.antt =====
-- What the code asks of its surroundings: the two transports (WebSocket.cpp and QuicSocket.cpp),
-- the node selector, the generated codec, and libcurl's codes. An answer may depend on all that
-- the code has done before, the call that is answered included.
use bff_rtc_base.Base.{Bool, List, Option, Bytes, ℤ}
use bff_rtc_base.Signal.Race.{Leg}
use bff_rtc_base.Signal.Request.{SignalRequest}
use bff_rtc_base.Signal.State.{Effect}

pub data QuicState : Type 0 where
  connecting is_open closing closed : QuicState

abbrev pub is_quic_open : QuicState → Bool
is_quic_open QuicState.is_open = Bool.true
is_quic_open _ = Bool.false

-- Connecting or open.
abbrev pub is_quic_alive : QuicState → Bool
is_quic_alive QuicState.connecting = Bool.true
is_quic_alive QuicState.is_open = Bool.true
is_quic_alive _ = Bool.false

-- The codes of libcurl that the code names: those of `IsCurlSecError`, `CURLE_OPERATION_TIMEDOUT`
-- and the transport's own `NeverConnected`.
pub record CurlCodes : Type 0 where
  pub ssl_codes : List ℤ
  pub operation_timedout : ℤ
  pub never_connected : ℤ

pub data QuicErrorKind : Type 0 where
  ssl timeout resolve connect http invalid_url other : QuicErrorKind

abbrev pub is_http : QuicErrorKind → Bool
is_http QuicErrorKind.http = Bool.true
is_http _ = Bool.false

abbrev pub is_ssl : QuicErrorKind → Bool
is_ssl QuicErrorKind.ssl = Bool.true
is_ssl _ = Bool.false

-- The kinds that are not tried again: `Timeout` and `InvalidUrl`.
abbrev pub is_final : QuicErrorKind → Bool
is_final QuicErrorKind.timeout = Bool.true
is_final QuicErrorKind.invalid_url = Bool.true
is_final _ = Bool.false

-- `open_error` is what QuicSocket reports from inside an `open` that fails, if anything.
pub record Links : Type 0 where
  pub opens : Leg → List Effect → Bool
  pub open_error : List Effect → Option (QuicErrorKind × ℤ)
  pub quic_state : List Effect → QuicState
  pub is_running : Leg → List Effect → Bool
  pub sends : Leg → List Effect → Bool
  pub send_request_fn : Option (List Effect → Bool)
  pub best_node : List Effect → Bytes
  pub pack : SignalRequest → Option Bytes
  pub unpack : Bytes → Option SignalRequest
  pub to_json : SignalRequest → Option Bytes

-- What a transport tells, as the constructor of `Private` registers it.
pub data Callback : Type 0 where
  on_open : Leg → Callback
  on_close : Leg → (code : ℤ) → (remote : Bool) → Callback
  on_curl_error : (http_code curl_code : ℤ) → Callback
  on_quic_error : QuicErrorKind → (http_code : ℤ) → Callback
