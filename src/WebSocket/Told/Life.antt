-- ===== src/WebSocket/Told/Life.antt =====
-- What is said of a connection's end in the worker thread and in `close` (WebSocket.cpp).
use bff_rtc_base.Base.{
  ◌≡◌, refl, sym, true≢false, ◌==◌, int_eq, Bool, true, false, not, ◌&&◌, ◌||◌, List, [], ◌∷◌,
  Option, none, some, Bytes, ℤ, pos, if-both, if-cases,
}
use bff_rtc_base.WebSocket.{Socket, SocketError, fire_error, fire_close}
use bff_rtc_base.WebSocket.Send.{Curl, flush_send_queue, drain}
use bff_rtc_base.WebSocket.Worker.{
  Round, Outcome, request_close, take_calls, after_poll, after_messages, error_of, after_perform,
  round, run_rounds, outcome_at, report_end, finish,
}
use bff_rtc_base.WebSocket.Life.{
  Run, fail_start, run_worker, work, join_thread, close_joined, close, Act, act, life,
}
use bff_rtc_base.WebSocket.Told.{
  End, Told, IsTold, ends_of, fire_error-IsTold, fire_close-IsTold, after_drain-IsTold, send-IsTold,
  request_close-IsTold, take_inputs-IsTold, take_calls-IsTold,
}

called-reported : (cc er : Bool) (ends : List End) → Told cc er ends → er ≡ true → cc ≡ true
called-reported true er ends told h = refl
called-reported false false ends told h = absurd (true≢false (sym h))
called-reported false true ends told h = absurd told

called-or : (cc er : Bool) (ends : List End) → Told cc er ends → (cc || er) ≡ true → cc ≡ true
called-or true er ends told h = refl
called-or false er ends told h = called-reported false er ends told h

fire_error-called :
    (error : SocketError) (s : Socket) → IsTold s → (fire_error error s).close_called ≡ true
unfolding fire_error
fire_error-called error s told =
    if-cases (λ (r : Socket). r.close_called ≡ true) s.error_reported
      (λ h. called-reported s.close_called s.error_reported (ends_of s.events) told h) (λ h. refl)

fire_close-called :
    (code : ℤ) (reason : Bytes) (remote : Bool) (s : Socket)
    → IsTold s
    → (fire_close code reason remote s).close_called ≡ true
unfolding fire_close
fire_close-called code reason remote s told =
    if-cases (λ (r : Socket). r.close_called ≡ true) (s.close_called || s.error_reported)
      (λ h. called-or s.close_called s.error_reported (ends_of s.events) told h) (λ h. refl)

-- The end has been reported.
abbrev pub IsReported : Socket → Type 0
IsReported s = IsTold s × (s.close_called ≡ true)

fire_error-IsReported :
    (error : SocketError) (s : Socket) → IsTold s → IsReported (fire_error error s)
fire_error-IsReported error s told =
    (fire_error-IsTold error s told, fire_error-called error s told)

fire_close-IsReported :
    (code : ℤ) (reason : Bytes) (remote : Bool) (s : Socket)
    → IsTold s
    → IsReported (fire_close code reason remote s)
fire_close-IsReported code reason remote s told =
    (fire_close-IsTold code reason remote s told, fire_close-called code reason remote s told)

module _ (curl : Curl) where
  flush_send_queue-IsTold :
      (response : ℤ) (s : Socket) → IsTold s → IsTold (flush_send_queue curl.ws_send response s)
  unfolding flush_send_queue
  flush_send_queue-IsTold response s told =
      if-both IsTold s.open_notified
        (after_drain-IsTold response (drain curl.ws_send s.sendq s.wire).2 _ told) told

  after_poll-IsTold :
      (failure : Option (ℤ × Bytes)) (woken : Bool) (response : ℤ) (s : Socket)
      → IsTold s
      → IsTold (after_poll curl failure woken response s).0
  unfolding after_poll
  after_poll-IsTold (some e) woken response s told =
      fire_error-IsTold (error_of response e s) s told
  after_poll-IsTold none woken response s told =
      if-both IsTold woken (flush_send_queue-IsTold response s told) told

  after_messages-IsTold :
      (result : Option ℤ) (r : Round) (s : Socket)
      → IsTold s
      → IsTold (after_messages curl result r s).0
  unfolding after_messages
  after_messages-IsTold (some rc) r s told = told
  after_messages-IsTold none r s told =
      if-both (λ (x : Socket × Outcome × Bool). IsTold x.0) (not r.still_running || s.aborted) told
        (after_poll-IsTold r.poll_error r.woken r.response s told)

  after_perform-IsTold :
      (failure : Option (ℤ × Bytes)) (r : Round) (s : Socket)
      → IsTold s
      → IsTold (after_perform curl failure r s).0
  unfolding after_perform
  after_perform-IsTold (some e) r s told = fire_error-IsTold (error_of r.response e s) s told
  after_perform-IsTold none r s told =
      after_messages-IsTold r.finished r _ (flush_send_queue-IsTold r.response s told)

  round-IsTold : (r : Round) (s : Socket) → IsTold s → IsTold (round curl r s).0
  unfolding round
  round-IsTold r s told =
      after_perform-IsTold r.perform_error r _ (take_inputs-IsTold r.inputs s told)

  run_rounds-IsTold :
      (rounds : List Round) (s : Socket) → IsTold s → IsTold (run_rounds curl rounds s).0
  unfolding run_rounds
  run_rounds-IsTold [] s told = told
  run_rounds-IsTold (r ∷ rounds) s0 told0 =
      let s = take_calls r.calls s0 in
      let told = take_calls-IsTold r.calls s0 told0 in
      let next = round-IsTold r s told in
      if-both (λ (x : Socket × Outcome). IsTold x.0) s.aborted told
        (if-both (λ (x : Socket × Outcome). IsTold x.0) (round curl r s).2
          (run_rounds-IsTold rounds _ next) next)

  -- The application has been told.
  report_end-IsReported :
      (rc_text : Bytes) (outcome : Outcome) (s : Socket)
      → IsTold s
      → IsReported (report_end curl rc_text outcome s)
  unfolding report_end
  report_end-IsReported rc_text (rc, http_code) s told =
      if-both IsReported (not s.aborted && not (rc == pos 0)) (fire_error-IsReported _ s told) (
        if-cases IsReported (s.close_called || s.error_reported)
          (λ h. (told, called-or s.close_called s.error_reported (ends_of s.events) told h))
          (λ h.
            if-both IsReported s.local_close_requested
              (fire_close-IsReported s.local_close_code s.local_close_reason false s told)
              (if-both IsReported s.open_notified (fire_close-IsReported (pos 1000) [] true s told)
                (fire_error-IsReported _ s told))))

  finish-IsReported :
      (rc_text : Bytes) (response : ℤ) (outcome : Outcome) (s : Socket)
      → IsTold s
      → IsReported (finish curl rc_text response outcome s)
  unfolding finish
  finish-IsReported rc_text response outcome s told =
      let flushed = flush_send_queue curl.ws_send response s in
      report_end-IsReported rc_text (outcome_at curl response outcome flushed)
        (record flushed { running = false }) (flush_send_queue-IsTold response s told)

  pub run_worker-IsReported :
      (start : Option SocketError) (run : Run) (s : Socket)
      → IsTold s
      → IsReported (run_worker curl start run s)
  unfolding run_worker fail_start
  run_worker-IsReported (some error) run s told = fire_error-IsReported error _ told
  run_worker-IsReported none run s told =
      finish-IsReported run.rc_text run.response (run_rounds curl run.rounds s).1
        (run_rounds curl run.rounds s).0 (run_rounds-IsTold run.rounds s told)

  work-IsTold : (run : Run) (s : Socket) → IsTold s → IsTold (work curl run s)
  unfolding work
  work-IsTold run s told =
      if-both IsTold s.alive (run_worker-IsReported run.start run s told).0 told

  pub close-IsReported :
      (code : ℤ) (reason : Bytes) (run : Run) (s : Socket)
      → IsTold s
      → IsReported (close curl code reason run s)
  unfolding close join_thread close_joined
  close-IsReported code reason run s told =
      let asked = request_close-IsTold code reason s told in
      let joined =
        if-both IsTold (request_close code reason s).joinable (work-IsTold run _ asked) asked in
      fire_close-IsReported code reason false _ joined

  act-IsTold : (a : Act) (s : Socket) → IsTold s → IsTold (act curl a s)
  unfolding act
  act-IsTold (Act.sends payload is_bin) s told = send-IsTold payload is_bin s told
  act-IsTold (Act.closes_async code reason) s told = request_close-IsTold code reason s told
  act-IsTold (Act.closes code reason run) s told = (close-IsReported code reason run s told).0
  act-IsTold (Act.works run) s told = work-IsTold run s told

  pub life-keeps : (acts : List Act) (s : Socket) → IsTold s → IsTold (life curl acts s)
  unfolding life
  life-keeps [] s told = told
  life-keeps (a ∷ acts) s told = life-keeps acts _ (act-IsTold a s told)
