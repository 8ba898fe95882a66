-- ===== src/Signal/Connection/Kept.antt =====
-- What the handlers of the transports' callbacks keep: a predicate that the small steps they are
-- made of keep.
use bff_rtc_base.Base.{
  Bool, true, refl, inl, Option, none, some, codes, ℤ, if-both, if◌then◌else◌, not, ◌&&◌,
}
use bff_rtc_base.Signal.Config.{Config, RtcError}
use bff_rtc_base.Signal.Race.{
  Leg, is_leg, Failure, Opened, is_candidate, mixed_declare_winner, transport_opened,
}
use bff_rtc_base.Signal.State.{Private, Effect, Notice}
use bff_rtc_base.Signal.Connection.Closing.{
  KeptClosing, enumerate_listeners-KeptClosing, start_keepalive-KeptClosing, fail_fatal-KeptClosing,
}
use bff_rtc_base.Signal.Links.{Links, CurlCodes, Callback, QuicErrorKind}
use bff_rtc_base.Signal.Connection.{
  set_race, set_state, is_token_code, end_session, fail_fatal, schedule_reconnect,
  start_tcp_fallback, failure_of, settle_failure, handle_failure, session_started, close_loser,
  declare_winner, after_open, lost, on_transport_open, on_transport_close, on_curl_error,
  on_quic_error, on_callback,
}

pub record Kept (links : Links) (config : Config) (P : Private → Type 0) : Type 0 where
  pub closing : KeptClosing P
  pub fallback : (d : Private) → P d → P (start_tcp_fallback links config d)
  pub reconnect : (delay : ℤ) (d : Private) → P d → P (schedule_reconnect config delay d)

module _ {links : Links} {config : Config} {P : Private → Type 0} (k : Kept links config P) where
  settle_failure-Kept : (f : Failure) (d : Private) → P d → P (settle_failure links config f d).0
  unfolding settle_failure
  settle_failure-Kept Failure.failed d p = p
  settle_failure-Kept Failure.handled d p = p
  settle_failure-Kept Failure.start_tcp d p =
      k.closing.race (start_tcp_fallback links config d) _ (k.fallback d p)

  handle_failure-Kept :
      (leg : Leg) (allow : Bool) (d : Private) → P d → P (handle_failure links config leg allow d).0
  unfolding handle_failure
  handle_failure-Kept leg allow d p =
      let (race, failure) = failure_of links config leg allow d in
      settle_failure-Kept failure (set_race d race) (k.closing.race d race p)

  session_started-Kept : (d : Private) → P d → P (session_started links config d)
  session_started-Kept d p =
      let quic = Notice.on_quic (is_leg d.race.primary_leg Leg.quic) in
      start_keepalive-KeptClosing k.closing _ (
        k.closing.life _ _ (refl, refl, refl, inl refl)
          (if-both P d.life.owner (enumerate_listeners-KeptClosing k.closing quic d p) p))

  close_loser-Kept : (loser : Option Leg) (d : Private) → P d → P (close_loser links config loser d)
  close_loser-Kept none d p = p
  close_loser-Kept (some leg) d p = k.closing.effect (Effect.closed_async leg) d refl p

  declare_winner-Kept : (leg : Leg) (d : Private) → P d → P (declare_winner links config leg d)
  unfolding declare_winner
  declare_winner-Kept leg d p =
      let (race, loser) = mixed_declare_winner d.race leg in
      close_loser-Kept loser (set_race d race) (k.closing.race d race p)

  after_open-Kept :
      (leg : Leg) (found : Opened) (d : Private) → P d → P (after_open links config leg found d)
  unfolding after_open
  after_open-Kept leg Opened.not_candidate d p = p
  after_open-Kept leg Opened.already_closing d p =
      k.closing.effect (Effect.closed_async leg) d refl p
  after_open-Kept leg Opened.discard_alt d p =
      k.closing.effect (Effect.closed_async Leg.curl) d refl p
  after_open-Kept leg Opened.open_racing d p = session_started-Kept _ (declare_winner-Kept leg d p)
  after_open-Kept leg Opened.open_alone d p = session_started-Kept d p

  on_transport_open-Kept :
      (leg : Leg) (d : Private) → P d → P (on_transport_open links config leg d)
  unfolding on_transport_open
  on_transport_open-Kept leg d p =
      let (race, found) = transport_opened d.life.user_closed d.race leg in
      after_open-Kept leg found (set_race d race) (k.closing.race d race p)

  on_transport_close-Kept :
      (leg : Leg) (code : ℤ) (remote : Bool) (d : Private)
      → P d
      → P (on_transport_close links config leg code remote d)
  unfolding on_transport_close
  on_transport_close-Kept leg code remote d p =
      let next = (handle_failure links config leg (remote && not d.life.user_closed) d).0 in
      let q : P next = handle_failure-Kept leg (remote && not d.life.user_closed) d p in
      let ended : P (set_state (codes "closed") (end_session next)) =
        k.closing.life (end_session next) _ (refl, refl, refl, inl refl)
          (k.closing.race next _ q) in
      if-both P (not (is_candidate d.race leg)) p (
        if-both P (is_token_code code) (fail_fatal-KeptClosing k.closing RtcError.token d p)
          (if-both P _ q (k.reconnect config.signal.reconnect_interval _ ended)))

  -- The end of both handlers of errors, once the failure of the leg is handled.
  errors-Kept :
      (final : Bool) (handled : Private × Bool)
      → P handled.0
      → P (
          if handled.1
          then handled.0
          else if final
          then fail_fatal RtcError.signal_failed handled.0
          else lost links config handled.0)
  errors-Kept final (next, done) q = if-both P done q (
      if-both P final (fail_fatal-KeptClosing k.closing RtcError.signal_failed next q)
        (k.reconnect config.signal.reconnect_interval _ (k.closing.race next _ q)))

  on_curl_error-Kept :
      (curl : CurlCodes) (http_code curl_code : ℤ) (d : Private)
      → P d
      → P (on_curl_error links config curl http_code curl_code d)
  unfolding on_curl_error
  on_curl_error-Kept curl http_code curl_code d p =
      let last =
        errors-Kept _ (handle_failure links config Leg.curl true d)
          (handle_failure-Kept Leg.curl true d p) in
      if-both P _ p (
        if-both P _ (fail_fatal-KeptClosing k.closing RtcError.token d p)
          (if-both P _ (fail_fatal-KeptClosing k.closing RtcError.ssl d p) last))

  pub on_quic_error-Kept :
      (kind : QuicErrorKind) (http_code : ℤ) (d : Private)
      → P d
      → P (on_quic_error links config kind http_code d)
  unfolding on_quic_error
  on_quic_error-Kept kind http_code d p =
      let last =
        errors-Kept _ (handle_failure links config Leg.quic true d)
          (handle_failure-Kept Leg.quic true d p) in
      if-both P _ p (
        if-both P _ (fail_fatal-KeptClosing k.closing RtcError.token d p)
          (if-both P _ (fail_fatal-KeptClosing k.closing RtcError.ssl d p) last))

  pub on_callback-Kept :
      (curl : CurlCodes) (c : Callback) (d : Private) → P d → P (on_callback links config curl c d)
  unfolding on_callback
  on_callback-Kept curl (Callback.on_open leg) d p = on_transport_open-Kept leg d p
  on_callback-Kept curl (Callback.on_close leg code remote) d p =
      on_transport_close-Kept leg code remote d p
  on_callback-Kept curl (Callback.on_curl_error http code) d p =
      on_curl_error-Kept curl http code d p
  on_callback-Kept curl (Callback.on_quic_error kind http) d p = on_quic_error-Kept kind http d p
