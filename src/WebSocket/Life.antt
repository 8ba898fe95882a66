-- ===== src/WebSocket/Life.antt =====
-- What the application does with a connection (lines 464 to 506, 522 to 623 and 745 to 762): `open`,
-- the whole of the worker thread, and `close`.

use bff_rtc_base.Base.{
  Bool, true, false, List, [], ◌∷◌, Option, none, some, Bytes, if◌then◌else◌, ℤ, pos,
}
use bff_rtc_base.WebSocket.{Socket, SocketState, SocketEvent, SocketError, fire_error, fire_close}
use bff_rtc_base.WebSocket.Send.{Curl, send}
use bff_rtc_base.WebSocket.Worker.{Round, request_close, run_rounds, finish}

unfoldable pub reopened : Socket → Socket
reopened s = record s {
  aborted = false;
  running = true;
  state = SocketState.connecting;
  joinable = true;
  alive = true;
  last_error = [];
  last_error_code = pos 0;
  close_called = false;
  local_close_requested = false;
  local_close_code = pos 1000;
  local_close_reason = [];
  open_notified = false;
  error_reported = false;
  events = SocketEvent.opening ∷ s.events;
}

-- The thread that `open` replaces must not be joinable: `std::terminate` is called where it is.
unfoldable pub open_socket : Socket → Option Socket
unfolding reopened
open_socket s = if s.joinable then none else some (reopened s)

-- What a thread meets: the error of a start that fails, or the rounds of its loop and, at the end,
-- the text of the transfer's result and the response code.
pub record Run : Type 0 where
  pub start : Option SocketError
  pub rounds : List Round
  pub rc_text : Bytes
  pub response : ℤ

-- A start that fails: `curl_easy_init`, `curl_multi_init` or `curl_multi_add_handle`.
unfoldable pub fail_start : SocketError → Socket → Socket
unfolding fire_error
fail_start error s =
    record (fire_error error (record s { running = false; state = SocketState.closed })) {
      alive = false;
    }

-- What the application does, and the thread on its own.
pub data Act : Type 0 where
  sends : (payload : Bytes) → (binary : Bool) → Act
  closes_async : (code : ℤ) → (reason : Bytes) → Act
  closes : (code : ℤ) → (reason : Bytes) → Run → Act
  works : Run → Act

module _ (curl : Curl) where
  -- The thread's function.
  unfoldable pub run_worker : Option SocketError → Run → Socket → Socket
  unfolding fail_start run_rounds finish
  run_worker (some error) run s = fail_start error s
  run_worker none run s =
      let (looped, outcome) = run_rounds curl run.rounds s in
      finish curl run.rc_text run.response outcome looped

  -- The thread runs to its end, where it has not ended.
  unfoldable pub work : Run → Socket → Socket
  unfolding run_worker
  work run s = if s.alive then run_worker run.start run s else s

  -- `joinThreadLocked`
  unfoldable pub join_thread : Run → Socket → Socket
  unfolding work
  join_thread run s = if s.joinable then record (work run s) { joinable = false } else s

  -- Behind the join.
  unfoldable pub close_joined : ℤ → Bytes → Socket → Socket
  unfolding fire_close
  close_joined code reason s =
      let cleared = record s { sendq = []; running = false } in
      record (fire_close code reason false cleared) { state = SocketState.closed }

  unfoldable pub close : ℤ → Bytes → Run → Socket → Socket
  unfolding request_close join_thread close_joined
  close code reason run s = close_joined code reason (join_thread run (request_close code reason s))

  unfoldable pub act : Act → Socket → Socket
  unfolding send request_close close work
  act (Act.sends payload binary) s = (send payload binary s).0
  act (Act.closes_async code reason) s = request_close code reason s
  act (Act.closes code reason run) s = close code reason run s
  act (Act.works run) s = work run s

  unfoldable pub life : List Act → Socket → Socket
  unfolding act
  life [] s = s
  life (a ∷ acts) s = life acts (act a s)
