-- ===== src/Signal/Connect/Begin.antt =====
-- What a new connection starts from, and which waiting thread may start one.
use mathlib.Core.Path.{subst}
use bff_rtc_base.Base.{
  ℕ, Bool, true, false, ap, sym, if-both, true≢false, ◌≡◌, refl, List, some, Bytes, arith, map-some,
  if◌then◌else◌,
}
use bff_rtc_base.Url.Token.{replace_token_query}
use bff_rtc_base.Signal.Config.{Config, RtcError, is_curl, is_mixed}
use bff_rtc_base.Signal.Race.{
  Leg, cancel_mixed_race, fallback_address, fallback_opened, begin_mixed_delay,
  cancel_mixed_delay_only,
}
use bff_rtc_base.Signal.State.{Private, emit, enumerate_listeners}
use bff_rtc_base.Signal.Links.{Links, CurlCodes, Callback}
use bff_rtc_base.Signal.Connection.{
  start_tcp_fallback, fail_fatal, close_all_async, close_transports, cancel_race, stop_keepalive,
}
use bff_rtc_base.Signal.Connect.{
  prepare_connect, start_opening, finish_opening, open_transports, schedule_tcp_fallback,
  begin_connect, may_reconnect,
}

module _ (links : Links) (config : Config) (curl : CurlCodes) where
  -- The user has not closed the connection, reconnecting is not suppressed, there is no session,
  -- and the leg is that of the implementation.
  abbrev pub IsFresh : Private → Type 0
  IsFresh d =
      (d.life.user_closed ≡ false)
      × (d.life.suppress_reconnect ≡ false)
      × (d.race.session_open ≡ false)
      × (d.race.primary_leg ≡ (if is_curl config.signal.implementation then Leg.curl else Leg.quic))

  schedule_tcp_fallback-IsFresh :
      (d : Private) → IsFresh d → IsFresh (schedule_tcp_fallback links config curl d)
  unfolding schedule_tcp_fallback start_tcp_fallback fallback_address fallback_opened
      begin_mixed_delay cancel_mixed_delay_only emit
  schedule_tcp_fallback-IsFresh d (open_, free, none_, leg) =
      (ground arith, ground arith, ground arith, ground arith)

  finish_opening-IsFresh :
      (answer : Bool) (d e : Private)
      → finish_opening links config curl answer d ≡ (e, true)
      → IsFresh d
      → IsFresh e
  unfolding finish_opening
  finish_opening-IsFresh true d e h fresh = subst IsFresh (ap (λ x. x.0) h) (
      if-both IsFresh (is_mixed config.signal.implementation)
        (schedule_tcp_fallback-IsFresh d fresh) fresh)
  finish_opening-IsFresh false d e h fresh = absurd (true≢false (sym (ap (λ x. x.1) h)))

  -- Where connecting succeeds, then whatever the state before, a disconnect included, and whatever the
  -- old transports report while they are joined, the connection counts as open for the user and
  -- reconnecting is allowed afterwards, there is no session yet, and the leg is that of the
  -- configured implementation.
  pub begin_connect-IsFresh :
      (during : List Callback) (url : Bytes) (d e : Private)
      → begin_connect links config curl during url d ≡ some (e, true)
      → IsFresh e
  unfolding begin_connect prepare_connect open_transports emit
  begin_connect-IsFresh during url d e h =
      let ready = prepare_connect links config curl during d in
      let url1 = replace_token_query url ready.auth_token in
      let (sni, found, same) =
        map-some (λ sni. open_transports links config curl url1 sni ready) _ h in
      finish_opening-IsFresh _ (start_opening links config curl url1 sni ready) e same
        (refl, refl, refl, refl)

  -- A fatal error does not stop a thread that waits to reconnect: it may go on exactly as if there
  -- had been no error.
  pub may_reconnect-fail_fatal :
      (err : RtcError) (gen : ℕ) (url : Bytes) (d : Private)
      → may_reconnect links config curl gen url (fail_fatal err d)
        ≡ may_reconnect links config curl gen url d
  unfolding fail_fatal close_all_async close_transports cancel_race cancel_mixed_race stop_keepalive
      enumerate_listeners emit
  may_reconnect-fail_fatal err gen url d = ground arith
