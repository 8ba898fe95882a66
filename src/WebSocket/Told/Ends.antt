-- ===== src/WebSocket/Told/Ends.antt =====
-- The reports of a connection's end over its life (WebSocket.cpp, lines 339 to 375 and 693 to 731).
use mathlib.Core.Path.{subst}
use bff_rtc_base.Base.{
  ◌≡◌, refl, sym, true≢false, ◌∙◌, Bool, true, false, ◌||◌, List, [], Option, none, some, Bytes, ℤ,
  if-both, if-cases, is_empty, inl, inr,
}
use bff_rtc_base.WebSocket.{Socket, SocketState, SocketError, fire_error, fire_close}
use bff_rtc_base.WebSocket.Send.{Curl}
use bff_rtc_base.WebSocket.Worker.{request_close, finish}
use bff_rtc_base.WebSocket.Life.{
  Run, reopened, open_socket, fail_start, run_worker, work, join_thread, close_joined, close, Act,
  life,
}
use bff_rtc_base.WebSocket.Told.{End, Told, IsTold, ends_of}
use bff_rtc_base.WebSocket.Told.Life.{
  IsReported, close-IsReported, life-keeps, run_worker-IsReported,
}

open_socket-some : (s0 s : Socket) → open_socket s0 ≡ some s → s ≡ reopened s0
unfolding open_socket
open_socket-some s0 s h =
    if-cases (λ (o : Option Socket). o ≡ some s → s ≡ reopened s0) s0.joinable (λ _ o. cc)
      (λ _ o. cc) h

-- What a new connection says.
open_socket-IsTold : (s0 s : Socket) → open_socket s0 ≡ some s → IsTold s
unfolding reopened
open_socket-IsTold s0 s h = subst IsTold (sym (open_socket-some s0 s h)) refl

Told-some : (er : Bool) (ends : List End) → Told true er ends → is_empty ends ≡ false
Told-some false ends told = rw told refl
Told-some true ends (inl h) = rw h refl
Told-some true ends (inr h) = rw h refl

reported-some : (s : Socket) → IsReported s → is_empty (ends_of s.events) ≡ false
reported-some s (told, called) =
    Told-some s.error_reported (ends_of s.events)
      (subst (λ b. Told b s.error_reported (ends_of s.events)) called told)

fire_close-keeps :
    (code : ℤ) (reason : Bytes) (remote : Bool) (s : Socket)
    → ((fire_close code reason remote s).sendq ≡ s.sendq)
      × ((fire_close code reason remote s).running ≡ s.running)
unfolding fire_close
fire_close-keeps code reason remote s =
    if-both (λ (r : Socket). (r.sendq ≡ s.sendq) × (r.running ≡ s.running))
      (s.close_called || s.error_reported) (refl, refl) (refl, refl)

module _ (curl : Curl) where
  run_worker-stops :
      (start : Option SocketError) (run : Run) (s : Socket)
      → ((run_worker curl start run s).alive ≡ false)
        × ((run_worker curl start run s).state ≡ SocketState.closed)
  unfolding run_worker fail_start fire_error finish
  run_worker-stops (some error) run s =
      (refl, if-both (λ (r : Socket). r.state ≡ SocketState.closed) s.error_reported refl refl)
  run_worker-stops none run s = (refl, refl)

  -- The flags and the ends that a connection reported since it was opened agree, whatever the
  -- application, the peer and libcurl do in between: each of `on_close` and `on_error` was called
  -- at most once, and `on_close` was not called behind `on_error`.
  pub life-IsTold :
      (acts : List Act) (s0 s : Socket) → open_socket s0 ≡ some s → IsTold (life curl acts s)
  life-IsTold acts s0 s opened = life-keeps curl acts s (open_socket-IsTold s0 s opened)

  -- After `close` the application has been told of an end at least once since the connection was
  -- opened, whatever happened before, the queue is empty, and the connection is closed.
  pub life-close :
      (code : ℤ) (reason : Bytes) (run : Run) (acts : List Act) (s0 s : Socket)
      → open_socket s0 ≡ some s
      → let end = close curl code reason run (life curl acts s) in
        (is_empty (ends_of end.events) ≡ false)
        × (end.sendq ≡ [])
        × (end.running ≡ false)
        × (end.state ≡ SocketState.closed)
  unfolding close close_joined
  life-close code reason run acts s0 s opened =
      let before = life curl acts s in
      let joined = join_thread curl run (request_close code reason before) in
      let (sendq, running) =
        fire_close-keeps code reason false (record joined { sendq = []; running = false }) in
      (
        reported-some (close curl code reason run before)
            (close-IsReported curl code reason run before (life-IsTold acts s0 s opened)),
        sendq,
        running,
        refl,
      )

  -- A thread that runs reports an end itself, where none was reported since the connection was
  -- opened, before it ends; then the connection is closed.
  pub life-work :
      (run : Run) (acts : List Act) (s0 s : Socket)
      → open_socket s0 ≡ some s
      → (life curl acts s).alive ≡ true
      → let end = work curl run (life curl acts s) in
        (is_empty (ends_of end.events) ≡ false)
        × (end.alive ≡ false)
        × (end.state ≡ SocketState.closed)
  unfolding work
  life-work run acts s0 s opened alive =
      let before = life curl acts s in
      let (stopped, ended) = run_worker-stops run.start run before in
      if-cases
        (λ (end : Socket).
          (is_empty (ends_of end.events) ≡ false)
          × (end.alive ≡ false)
          × (end.state ≡ SocketState.closed))
        before.alive
        (λ h. (
          reported-some (run_worker curl run.start run before)
              (run_worker-IsReported curl run.start run before (life-IsTold acts s0 s opened)),
          stopped,
          ended,
        ))
        (λ h. absurd (true≢false (sym alive ∙ h)))
