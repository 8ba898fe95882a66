-- ===== src/Signal/Connect/Bounded.antt =====
-- The bound on the reconnections of a connection that gets no answer.
use mathlib.Core.Option
use mathlib.Core.Path.{subst}
use bff_rtc_base.Base.{
  Option, none, Bool, true, false, ℤ, ℕ, ◌≤◌, ◌≡◌, refl, sym, ◌∙◌, inl, inr, List, some, Bytes, pos,
  arith, ◌==◌, nat_eq, if-both, if-true, if-false, map-some, ◌+◌, Option-cases, pos_part, codes,
  Bool-cases,
}
use bff_rtc_base.Signal.Config.{Config, is_mixed, is_curl}
use bff_rtc_base.Url.Token.{replace_token_query}
use bff_rtc_base.Signal.Race.{fallback_address, mixed_timer}
use bff_rtc_base.Signal.State.{Private, Requests, emit}
use bff_rtc_base.Signal.Links.{Links, CurlCodes, Callback, QuicErrorKind}
use bff_rtc_base.Signal.Send.{send_leave}
use bff_rtc_base.Signal.Connection.{start_tcp_fallback, set_race, set_state, stop_keepalive}
use bff_rtc_base.Signal.Connection.Kept.{Kept, on_quic_error-Kept, on_callback-Kept}
use bff_rtc_base.Signal.Connect.{
  mixed_delay_over, may_reconnect, reconnect_delay_over, begin_connect, prepare_connect,
  start_opening, finish_opening, open_failed, open_transports, ping_overdue, cancel_disconnect_wait,
  close_in_handler, close_after_disconnect, disconnect_wait_over, maybe_close_after_response,
  start_disconnect, schedule_disconnect_timeout, disconnect,
}
use bff_rtc_base.Signal.Connect.Kept.{close_all_joining-Kept, close_up_to-Kept}
use bff_rtc_base.Signal.Send.Kept.{
  send_request-Kept, request_or_again-Kept, flush_pending_reqs-Kept, send_leave-Kept,
}
use bff_rtc_base.Signal.Connect.Reconnects.{
  reconnects, Counts, prepare_connect-reconnects, start_opening-reconnects,
  schedule_tcp_fallback-reconnects,
}
use bff_rtc_base.Signal.Connect.Steps.{Step, Steps}
use bff_rtc_base.Signal.Connect.Limit.{IsBounded, IsBounded-closing, schedule_reconnect-IsBounded}

module _ (links : Links) (config : Config) (curl : CurlCodes) {m k j : ℕ}
    (fits : pos_part config.signal.reconnect_max_times ≤ m) where
  fallback-IsBounded :
      (d : Private) → IsBounded m k j d → IsBounded m k j (start_tcp_fallback links config d)
  unfolding start_tcp_fallback fallback_address reconnects emit
  fallback-IsBounded d b = record {
    threads = let t = b.threads in ground arith;
    limit = let l = b.limit in ground arith;
  }

  IsBounded-Kept : Kept links config (IsBounded m k j)
  IsBounded-Kept = record {
    closing = IsBounded-closing m k j;
    fallback = fallback-IsBounded;
    reconnect = schedule_reconnect-IsBounded config fits;
  }

  IsBounded-requests :
      (d : Private) (rs : Requests)
      → IsBounded m k j d
      → IsBounded m k j (record d { requests = rs })
  IsBounded-requests d rs b = record { threads = b.threads; limit = b.limit }

  -- As many threads, and as many counted.
  counted-IsBounded :
      (d e : Private)
      → IsBounded m k j d
      → Counts (reconnects d.trace) d.life.reconnect_count e
      → IsBounded m k j e
  counted-IsBounded d e b (threads, count) = record {
    threads = let t = b.threads in omega arith;
    limit = let l = b.limit in omega arith;
  }

  open_failed-IsBounded :
      (error : Option (QuicErrorKind × ℤ)) (d : Private)
      → IsBounded m k j d
      → IsBounded m k j (open_failed links config curl error d)
  open_failed-IsBounded none d b = b
  open_failed-IsBounded (some (kind, http_code)) d b =
      on_quic_error-Kept IsBounded-Kept kind http_code d b

  mixed-IsBounded :
      (gen : ℕ) (d : Private)
      → IsBounded m k j d
      → IsBounded m k j (mixed_delay_over links config curl gen d)
  unfolding mixed_delay_over
  mixed-IsBounded gen d b = elim (Option-cases (mixed_timer gen d.race)) [
    | inl e ↦ rw (e, mixed_delay_over) b
    | inr (race, e) ↦
        rw (e, mixed_delay_over)
          (fallback-IsBounded (set_race d race) (record { threads = b.threads; limit = b.limit }))
  ]

  finish_opening-IsBounded :
      (answer : Bool) (d : Private)
      → IsBounded m k j d
      → IsBounded m k j (finish_opening links config curl answer d).0
  unfolding finish_opening
  finish_opening-IsBounded true d b =
      if-both (IsBounded m k j) (is_mixed config.signal.implementation)
        (counted-IsBounded d _ b
          (schedule_tcp_fallback-reconnects links config curl d (refl, refl)))
        b
  finish_opening-IsBounded false d b =
      if-both (IsBounded m k j) (is_curl config.signal.implementation) b
        (open_failed-IsBounded (links.open_error d.trace) d b)

  begin_connect-IsBounded :
      (during : List Callback) (url : Bytes) (d : Private) (r : Private × Bool)
      → begin_connect links config curl during url d ≡ some r
      → IsBounded m k j d
      → IsBounded m k j r.0
  unfolding begin_connect open_transports
  begin_connect-IsBounded during url d r h b =
      let ready = prepare_connect links config curl during d in
      let url1 = replace_token_query url ready.auth_token in
      let (sni, found, same) =
        map-some (λ sni. open_transports links config curl url1 sni ready) _ h in
      let prepared = prepare_connect-reconnects links config curl during d (refl, refl) in
      let opening = start_opening links config curl url1 sni ready in
      subst (λ x. IsBounded m k j x.0) same
        (finish_opening-IsBounded _ opening (
          counted-IsBounded d opening b
            (start_opening-reconnects links config curl url1 sni ready prepared)))

  reconnect-IsBounded :
      (during : List Callback) (gen : ℕ) (url : Bytes) (d e : Private)
      → reconnect_delay_over links config curl during gen url d ≡ some e
      → IsBounded m k j d
      → IsBounded m k j e
  unfolding reconnect_delay_over
  reconnect-IsBounded during gen url d e h b =
      let connecting = set_state (codes "connecting") d in
      let begun = begin_connect links config curl during url connecting in
      elim (Bool-cases (may_reconnect links config curl gen url d)) [
        | inl may ↦
            let (r, found, same) =
              map-some (λ r. r.0) begun
                (sym (if-true (Option.map (λ r. r.0) begun) (some d) may) ∙ h) in
            subst (IsBounded m k j) same (
              begin_connect-IsBounded during url connecting r found
                (record { threads = b.threads; limit = b.limit }))
        | inr stays ↦
            let same : some d ≡ some e =
              sym (if-false (Option.map (λ r. r.0) begun) (some d) stays) ∙ h in
            let p : d ≡ e = cc in subst (IsBounded m k j) p b
      ]

  close-IsBounded :
      (during : List Callback) (d : Private)
      → IsBounded m k j d
      → IsBounded m k j (close_after_disconnect links config curl during d)
  unfolding close_after_disconnect
  close-IsBounded during d b =
      let cancelled = cancel_disconnect_wait links config curl d in
      if-both (IsBounded m k j) d.life.disconnect_closing
        (close_all_joining-Kept curl IsBounded-Kept during cancelled
          (record { threads = b.threads; limit = b.limit }))
        b

  close_in_handler-IsBounded :
      (during : List Callback) (d : Private)
      → IsBounded m k j d
      → IsBounded m k j (close_in_handler links config curl during d)
  unfolding close_in_handler
  close_in_handler-IsBounded during d b =
      if-both (IsBounded m k j) d.life.disconnect_closing
        (close_up_to-Kept curl IsBounded-Kept d.race.primary_leg during
          (cancel_disconnect_wait links config curl d)
          (record { threads = b.threads; limit = b.limit }))
        b

  disconnect-IsBounded :
      (during : List Callback) (d : Private)
      → IsBounded m k j d
      → IsBounded m k j (disconnect links config curl during d)
  unfolding disconnect stop_keepalive reconnects emit
  disconnect-IsBounded during d b =
      let (asked, leave) = send_leave links (start_disconnect links config curl d) in
      let q =
        send_leave-Kept links IsBounded-Kept.closing.effect IsBounded-requests
          (start_disconnect links config curl d)
          (record { threads = b.threads; limit = b.limit }) in
      let waiting : IsBounded m k j (schedule_disconnect_timeout links config curl leave asked) =
        record { threads = q.threads; limit = q.limit } in
      IsBounded-requests _ _
        (if-both (IsBounded m k j) (leave == 0) (close-IsBounded during asked q) waiting)

  IsBounded-Step :
      {d e : Private} → Step links config curl d e → IsBounded m k j d → IsBounded m k j e
  unfolding ping_overdue disconnect_wait_over maybe_close_after_response
  IsBounded-Step (Step.called_back c d) b = on_callback-Kept IsBounded-Kept curl c d b
  IsBounded-Step (Step.mixed_woken gen d) b = mixed-IsBounded gen d b
  IsBounded-Step (Step.reconnect_woken during gen url d e h) b =
      reconnect-IsBounded during gen url d e h b
  IsBounded-Step (Step.ping_woken gen now d) b =
      if-both (IsBounded m k j) _ (schedule_reconnect-IsBounded config fits (pos 0) d b) b
  IsBounded-Step (Step.wait_woken during gen d) b =
      if-both (IsBounded m k j) _ (close-IsBounded during d b) b
  IsBounded-Step (Step.answered during id d) b =
      if-both (IsBounded m k j) _ (close_in_handler-IsBounded during d b) b
  IsBounded-Step (Step.disconnected during d) b = disconnect-IsBounded during d b
  IsBounded-Step (Step.requested req important d) b =
      send_request-Kept links IsBounded-Kept.closing.effect IsBounded-requests d req important b
  IsBounded-Step (Step.kept req d) b =
      request_or_again-Kept links IsBounded-Kept.closing.effect IsBounded-requests d req b
  IsBounded-Step (Step.flushed d) b =
      flush_pending_reqs-Kept links IsBounded-Kept.closing.effect IsBounded-requests d b

  IsBounded-Steps :
      {d e : Private} → Steps links config curl d e → IsBounded m k j d → IsBounded m k j e
  IsBounded-Steps (Steps.done d) b = b
  IsBounded-Steps (Steps.next s t) b = IsBounded-Steps t (IsBounded-Step s b)

-- Along any sequence of callbacks, woken threads, requests and disconnects, no more threads that
-- reconnect are started than the configured number of times less the count at the start, where
-- that count does not exceed the number.
pub reconnects_bounded :
    (links : Links) (config : Config) (curl : CurlCodes) (d e : Private)
    → d.life.reconnect_count ≤ pos_part config.signal.reconnect_max_times
    → Steps links config curl d e
    → reconnects e.trace + d.life.reconnect_count
      ≤ reconnects d.trace + pos_part config.signal.reconnect_max_times
reconnects_bounded links config curl d e le s =
    let b =
      IsBounded-Steps links config curl {k = reconnects d.trace} {j = d.life.reconnect_count}
        (omega arith) s (record { threads = omega arith; limit = le }) in
    let t = b.threads in let l = b.limit in omega arith
