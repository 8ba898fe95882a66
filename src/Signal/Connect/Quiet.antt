-- ===== src/Signal/Connect/Quiet.antt =====
-- After the user has closed the connection, nothing but a new `connect` opens a transport.
use mathlib.Core.Path.{subst}
use bff_rtc_base.Base.{
  ℕ, suc, true, false, ◌≡◌, refl, ap, sym, ◌∙◌, inl, inr, List, [], ◌∷◌, some, Bytes, ℤ, pos, arith,
  ◌||◌, if-true, if-both, ◌==◌, nat_eq, Option-cases,
}
use bff_rtc_base.Signal.Config.{Config}
use bff_rtc_base.Signal.Race.{mixed_timer, fallback_address}
use bff_rtc_base.Signal.State.{Private, Requests, Effect, opened, emit}
use bff_rtc_base.Signal.Links.{Links, CurlCodes, Callback}
use bff_rtc_base.Signal.Connection.{
  schedule_reconnect, start_tcp_fallback, set_race, stop_keepalive,
}
use bff_rtc_base.Signal.Connection.Closing.{is_plain}
use bff_rtc_base.Signal.Connection.Kept.{Kept, on_callback-Kept}
use bff_rtc_base.Signal.Send.{send_leave}
use bff_rtc_base.Signal.Connect.{
  mixed_delay_over, may_reconnect, reconnect_delay_over, ping_overdue, cancel_disconnect_wait,
  close_in_handler, close_after_disconnect, disconnect_wait_over, maybe_close_after_response,
  start_disconnect, schedule_disconnect_timeout, disconnect,
}
use bff_rtc_base.Signal.Connect.Kept.{close_all_joining-Kept, close_up_to-Kept}
use bff_rtc_base.Signal.Send.Kept.{
  send_request-Kept, request_or_again-Kept, flush_pending_reqs-Kept, send_leave-Kept,
}
use bff_rtc_base.Signal.Connect.Steps.{Step}

-- How many times a transport was opened.
unfoldable pub opens : List Effect → ℕ
opens [] = 0
opens (opened leg url sni ∷ trace) = suc (opens trace)
opens (e ∷ trace) = opens trace

-- The user has closed the connection, and `n` is the number of openings.
pub record IsQuiet (n : ℕ) (d : Private) : Type 0 where
  pub closed : d.life.user_closed ≡ true
  pub count : opens d.trace ≡ n

pub IsQuiet-frame :
    {n : ℕ} (d e : Private)
    → e.life.user_closed ≡ d.life.user_closed
    → e.trace ≡ d.trace
    → IsQuiet n d
    → IsQuiet n e
IsQuiet-frame d e c t q = record { closed = c ∙ q.closed; count = ap opens t ∙ q.count }

-- Nothing is tried again after the user has closed the connection.
schedule_reconnect-closed :
    (config : Config) (delay : ℤ) (d : Private)
    → d.life.user_closed ≡ true
    → schedule_reconnect config delay d ≡ d
unfolding schedule_reconnect
schedule_reconnect-closed config delay d h =
    if-true {b = d.life.user_closed || d.life.suppress_reconnect} _ _ (ground arith)

opens-plain :
    (e : Effect) (trace : List Effect) → is_plain e ≡ true → opens (e ∷ trace) ≡ opens trace
unfolding opens
opens-plain (opened leg url sni) trace h = cc
opens-plain (Effect.connect_timeout leg ms) trace h = refl
opens-plain (Effect.closed leg) trace h = refl
opens-plain (Effect.closed_async leg) trace h = refl
opens-plain (Effect.joined_itself leg) trace h = refl
opens-plain (Effect.sent leg payload binary) trace h = refl
opens-plain (Effect.handed req) trace h = refl
opens-plain (Effect.mixed_thread gen ms) trace h = refl
opens-plain (Effect.reconnect_thread gen ms url) trace h = refl
opens-plain (Effect.keepalive_thread gen) trace h = refl
opens-plain (Effect.disconnect_thread gen ms) trace h = refl
opens-plain (Effect.nodes_listed nodes port client_ip) trace h = refl
opens-plain (Effect.dict_set dict) trace h = refl
opens-plain (Effect.notified c n) trace h = refl

module _ (links : Links) (config : Config) (curl : CurlCodes) {n : ℕ} where
  IsQuiet-fallback : (d : Private) → IsQuiet n d → IsQuiet n (start_tcp_fallback links config d)
  unfolding start_tcp_fallback fallback_address opens emit
  IsQuiet-fallback d q = record { closed = ground arith; count = ground arith }

  pub IsQuiet-Kept : Kept links config (IsQuiet n)
  unfolding emit
  IsQuiet-Kept = record {
    closing = record {
      race = λ d r q. IsQuiet-frame d (set_race d r) refl refl q;
      life = λ d l calm q. record { closed = calm.1 ∙ q.closed; count = q.count };
      effect = λ e d h q. record { closed = q.closed; count = opens-plain e d.trace h ∙ q.count };
    };
    fallback = IsQuiet-fallback;
    reconnect =
        λ delay d q. subst (IsQuiet n) (sym (schedule_reconnect-closed config delay d q.closed)) q;
  }

  IsQuiet-requests :
      (d : Private) (rs : Requests) → IsQuiet n d → IsQuiet n (record d { requests = rs })
  IsQuiet-requests d rs q = IsQuiet-frame d (record d { requests = rs }) refl refl q

  IsQuiet-mixed :
      (gen : ℕ) (d : Private) → IsQuiet n d → IsQuiet n (mixed_delay_over links config curl gen d)
  unfolding mixed_delay_over
  IsQuiet-mixed gen d q = elim (Option-cases (mixed_timer gen d.race)) [
    | inl e ↦ rw (e, mixed_delay_over) q
    | inr (race, e) ↦
        rw (e, mixed_delay_over)
          (IsQuiet-fallback (set_race d race) (IsQuiet-frame d (set_race d race) refl refl q))
  ]

  IsQuiet-reconnect :
      (during : List Callback) (gen : ℕ) (url : Bytes) (d e : Private)
      → reconnect_delay_over links config curl during gen url d ≡ some e
      → IsQuiet n d
      → IsQuiet n e
  unfolding reconnect_delay_over
  IsQuiet-reconnect during gen url d e h q =
      let stays : may_reconnect links config curl gen url d ≡ false = ground arith in
      subst (IsQuiet n) (ground arith) q

  pub IsQuiet-close_in_handler :
      (during : List Callback) (d : Private)
      → IsQuiet n d
      → IsQuiet n (close_in_handler links config curl during d)
  unfolding close_in_handler
  IsQuiet-close_in_handler during d q =
      let cancelled = cancel_disconnect_wait links config curl d in
      if-both (IsQuiet n) d.life.disconnect_closing
        (close_up_to-Kept curl IsQuiet-Kept d.race.primary_leg during cancelled
          (IsQuiet-frame d cancelled refl refl q))
        q

  pub IsQuiet-close :
      (during : List Callback) (d : Private)
      → IsQuiet n d
      → IsQuiet n (close_after_disconnect links config curl during d)
  unfolding close_after_disconnect
  IsQuiet-close during d q =
      let cancelled = cancel_disconnect_wait links config curl d in
      if-both (IsQuiet n) d.life.disconnect_closing
        (close_all_joining-Kept curl IsQuiet-Kept during cancelled
          (IsQuiet-frame d cancelled refl refl q))
        q

  IsQuiet-start_disconnect :
      (d : Private) → opens d.trace ≡ n → IsQuiet n (start_disconnect links config curl d)
  unfolding stop_keepalive
  IsQuiet-start_disconnect d h = record { closed = refl; count = h }

  IsQuiet-wait :
      (leave : ℕ) (d : Private)
      → IsQuiet n d
      → IsQuiet n (schedule_disconnect_timeout links config curl leave d)
  unfolding opens emit
  IsQuiet-wait leave d q = record { closed = q.closed; count = q.count }

  -- The disconnect keeps the openings, and closes the connection if it was not.
  pub disconnect-IsQuiet :
      (during : List Callback) (d : Private)
      → opens d.trace ≡ n
      → IsQuiet n (disconnect links config curl during d)
  unfolding disconnect
  disconnect-IsQuiet during d h =
      let (asked, leave) = send_leave links (start_disconnect links config curl d) in
      let q =
        send_leave-Kept links IsQuiet-Kept.closing.effect IsQuiet-requests _
          (IsQuiet-start_disconnect d h) in
      IsQuiet-requests _ _ (
        if-both (IsQuiet n) (leave == 0) (IsQuiet-close during asked q)
          (IsQuiet-wait leave asked q))

  IsQuiet-wait_over :
      (during : List Callback) (gen : ℕ) (d : Private)
      → IsQuiet n d
      → IsQuiet n (disconnect_wait_over links config curl during gen d)
  unfolding disconnect_wait_over
  IsQuiet-wait_over during gen d q = if-both (IsQuiet n) _ (IsQuiet-close during d q) q

  pub IsQuiet-answer :
      (during : List Callback) (id : ℕ) (d : Private)
      → IsQuiet n d
      → IsQuiet n (maybe_close_after_response links config curl during id d)
  unfolding maybe_close_after_response
  IsQuiet-answer during id d q = if-both (IsQuiet n) _ (IsQuiet-close_in_handler during d q) q

  IsQuiet-ping :
      (gen now : ℕ) (d : Private)
      → IsQuiet n d
      → IsQuiet n (ping_overdue links config curl gen now d)
  unfolding ping_overdue
  IsQuiet-ping gen now d q = if-both (IsQuiet n) _ (IsQuiet-Kept.reconnect (pos 0) d q) q

  pub IsQuiet-Step : {d e : Private} → Step links config curl d e → IsQuiet n d → IsQuiet n e
  IsQuiet-Step (Step.called_back c d) q = on_callback-Kept IsQuiet-Kept curl c d q
  IsQuiet-Step (Step.mixed_woken gen d) q = IsQuiet-mixed gen d q
  IsQuiet-Step (Step.reconnect_woken during gen url d e h) q =
      IsQuiet-reconnect during gen url d e h q
  IsQuiet-Step (Step.ping_woken gen now d) q = IsQuiet-ping gen now d q
  IsQuiet-Step (Step.wait_woken during gen d) q = IsQuiet-wait_over during gen d q
  IsQuiet-Step (Step.answered during id d) q = IsQuiet-answer during id d q
  IsQuiet-Step (Step.disconnected during d) q = disconnect-IsQuiet during d q.count
  IsQuiet-Step (Step.requested req important d) q =
      send_request-Kept links IsQuiet-Kept.closing.effect IsQuiet-requests d req important q
  IsQuiet-Step (Step.kept req d) q =
      request_or_again-Kept links IsQuiet-Kept.closing.effect IsQuiet-requests d req q
  IsQuiet-Step (Step.flushed d) q =
      flush_pending_reqs-Kept links IsQuiet-Kept.closing.effect IsQuiet-requests d q
