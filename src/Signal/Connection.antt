-- ===== src/Signal/Connection.antt =====
-- The life of the connection (Signal.cpp lines 257 to 625, 633 to 663 and 680 to 874): opening,
-- the race of the transports, closing and reconnecting. The code of a thread that sleeps is a
-- function of what it keeps.
pub mod Closing
pub mod Kept
pub mod Winner
use bff_rtc_base.Base.{
  ◌+◌, Bool, true, false, Option, ◌&&◌, ◌||◌, not, none, some, Bytes, codes, if◌then◌else◌, ◌==◌,
  nat_eq, int_eq, ℤ, pos, negsuc, leb_ℤ, contains,
}
use bff_rtc_base.Signal.Config.{RtcError, Config, is_mixed}
use bff_rtc_base.Signal.Race.{
  Leg, Race, is_leg, next_gen, is_candidate, cancel_mixed_race, mixed_declare_winner,
  fallback_address, fallback_opened, Failure, transport_failure, adopt_fallback, Opened,
  transport_opened,
}
use bff_rtc_base.Signal.State.{
  Private, Life, Notice, connect_timeout, opened, closed, closed_async, reconnect_thread,
  keepalive_thread, emit, enumerate_listeners,
}
use bff_rtc_base.Signal.Links.{
  Links, CurlCodes, is_quic_open, is_quic_alive, QuicErrorKind, Callback, is_http, is_ssl, is_final,
}

abbrev pub set_race : Private → Race → Private
set_race d r = record d { race = r }

abbrev pub set_life : Private → Life → Private
set_life d l = record d { life = l }

abbrev pub end_session : Private → Private
end_session d = set_race d (record d.race { session_open = false })

abbrev pub set_suppress : Bool → Private → Private
set_suppress b d = set_life d (record d.life { suppress_reconnect = b })

abbrev pub set_state : Bytes → Private → Private
set_state s d = set_life d (record d.life { state_string = s })

abbrev pub close_leg : Bool → Leg → Private → Private
close_leg true leg d = emit (closed leg) d
close_leg false leg d = emit (closed_async leg) d

unfoldable pub cancel_race : Bool → Private → Private
unfolding cancel_mixed_race emit
cancel_race join d =
    let (race, close_alt) = cancel_mixed_race d.race in
    let next = set_race d race in if close_alt then close_leg join Leg.curl next else next

-- `closeAllTransports`; while it joins, the callbacks of the old transports run beside it.
unfoldable pub close_transports : Bool → Private → Private
unfolding cancel_race emit
close_transports join d = close_leg join Leg.quic (close_leg join Leg.curl (cancel_race join d))

abbrev pub forget_session : Private → Private
forget_session d = set_race d (record d.race { session_open = false; has_alt = false })

unfoldable pub close_all_async : Private → Private
unfolding close_transports
close_all_async d = forget_session (close_transports false d)

unfoldable pub stop_keepalive : Private → Private
stop_keepalive d =
    set_life d
      (record d.life { keepalive_gen = next_gen d.life.keepalive_gen; last_recv_ms = none })

unfoldable pub start_keepalive : Private → Private
unfolding emit
start_keepalive d =
    let gen = next_gen d.life.keepalive_gen in
    emit (keepalive_thread gen)
      (set_life d (record d.life { keepalive_gen = gen; last_recv_ms = none }))

-- `owner->onError`
abbrev pub owner_error : RtcError → Private → Private
owner_error err d = if d.life.owner then enumerate_listeners (Notice.on_error err) d else d

unfoldable pub fail_fatal : RtcError → Private → Private
unfolding stop_keepalive close_all_async enumerate_listeners
fail_fatal err d =
    owner_error err (end_session (close_all_async (set_suppress true (stop_keepalive d))))

abbrev reset_join_state : Private → Private
reset_join_state d = record d {
  requests = record d.requests { join_all_requested = false; join_requested = false };
}

abbrev pub clamp : ℤ → ℤ
clamp (pos n) = pos n
clamp (negsuc n) = pos 0

-- The reconnections are used up.
unfoldable pub give_up : Private → Private
unfolding stop_keepalive close_all_async enumerate_listeners
give_up d = owner_error RtcError.signal_failed (
    set_state (codes "closed")
      (end_session (close_all_async (set_suppress true (stop_keepalive d)))))

abbrev pub announce_reconnect : Private → Private
announce_reconnect d0 =
    let d =
      reset_join_state
        (set_life d0 (record d0.life { reconnect_count = d0.life.reconnect_count + 1 })) in
    if d.life.owner then enumerate_listeners Notice.on_reconnect d else d

abbrev pub close_for_reconnect : Private → Private
close_for_reconnect d =
    end_session (set_suppress false (close_all_async (set_suppress true (stop_keepalive d))))

-- One more reconnection: the transports are closed, and a thread waits to connect again.
unfoldable pub reconnect_later : ℤ → Private → Private
unfolding stop_keepalive close_all_async enumerate_listeners emit
reconnect_later delay d0 =
    let d = close_for_reconnect (announce_reconnect d0) in
    let gen = next_gen d.life.reconnect_gen in
    if d.life.user_closed
    then d
    else emit (reconnect_thread gen (clamp delay) d.life.server_url)
        (set_life d (record d.life { reconnect_gen = gen }))

unfoldable pub schedule_reconnect : Config → ℤ → Private → Private
unfolding give_up reconnect_later
schedule_reconnect config delay d =
    if d.life.user_closed || d.life.suppress_reconnect
    then d
    else if leb_ℤ config.signal.reconnect_max_times (pos d.life.reconnect_count)
    then give_up d
    else reconnect_later delay d

abbrev pub is_token_code : ℤ → Bool
is_token_code code = code == pos 602 || code == pos 603

module _ (links : Links) (config : Config) where
  -- The TCP transport is opened beside the other one, where nothing speaks against it.
  unfoldable pub start_tcp_fallback : Private → Private
  unfolding fallback_address fallback_opened emit
  start_tcp_fallback d =
      let quic_open = is_quic_open (links.quic_state d.trace) in
      let (race, address) = fallback_address d.life.user_closed quic_open d.race in
      elim address [
        | none ↦ set_race d race
        | some (url, sni) ↦
            let timed =
              emit (connect_timeout Leg.curl config.signal.connect_timeout) (set_race d race) in
            let opening = emit (opened Leg.curl url sni) timed in
            let (settled, discard) = fallback_opened d.life.user_closed race in
            if links.opens Leg.curl opening.trace
            then if discard then emit (closed_async Leg.curl) opening else set_race opening settled
            else opening
      ]

  abbrev quic_alive : Private → Bool
  quic_alive d = is_quic_alive (links.quic_state d.trace)

  -- Behind the first lock: a TCP fallback is started where that is called for.
  unfoldable pub settle_failure : Failure → Private → Private × Bool
  unfolding adopt_fallback start_tcp_fallback
  settle_failure Failure.failed d = (d, false)
  settle_failure Failure.handled d = (d, true)
  settle_failure Failure.start_tcp d =
      let started = start_tcp_fallback d in
      let (adopted, done) = adopt_fallback started.race in (set_race started adopted, done)

  abbrev pub failure_of : Leg → Bool → Private → Race × Failure
  failure_of leg allow_quic_fallback d =
      transport_failure (is_mixed config.signal.implementation) (quic_alive d) d.race leg
        allow_quic_fallback

  -- Also whether the failure is dealt with: then the caller neither reconnects nor reports it.
  unfoldable pub handle_failure : Leg → Bool → Private → Private × Bool
  unfolding transport_failure settle_failure
  handle_failure leg allow_quic_fallback d =
      let (race, failure) = failure_of leg allow_quic_fallback d in
      settle_failure failure (set_race d race)

  abbrev pub session_started : Private → Private
  session_started d =
      let quic = is_leg d.race.primary_leg Leg.quic in
      let told = if d.life.owner then enumerate_listeners (Notice.on_quic quic) d else d in
      start_keepalive
        (set_life told (record told.life { last_code = pos 0; state_string = codes "open" }))

  abbrev close_loser : Option Leg → Private → Private
  close_loser none d = d
  close_loser (some leg) d = emit (closed_async leg) d

  unfoldable pub declare_winner : Leg → Private → Private
  unfolding mixed_declare_winner emit
  declare_winner winner d =
      let (race, loser) = mixed_declare_winner d.race winner in close_loser loser (set_race d race)

  -- Behind the first lock, where nothing is changed for a leg that is no candidate.
  unfoldable pub after_open : Leg → Opened → Private → Private
  unfolding declare_winner start_keepalive enumerate_listeners emit
  after_open leg Opened.not_candidate d = d
  after_open leg Opened.already_closing d = emit (closed_async leg) d
  after_open leg Opened.discard_alt d = emit (closed_async Leg.curl) d
  after_open leg Opened.open_racing d = session_started (declare_winner leg d)
  after_open leg Opened.open_alone d = session_started d

  unfoldable pub on_transport_open : Leg → Private → Private
  unfolding transport_opened after_open
  on_transport_open leg d =
      let (race, found) = transport_opened d.life.user_closed d.race leg in
      after_open leg found (set_race d race)

  abbrev pub lost : Private → Private
  lost d = schedule_reconnect config config.signal.reconnect_interval (end_session d)

  unfoldable pub on_transport_close : Leg → ℤ → Bool → Private → Private
  unfolding handle_failure fail_fatal schedule_reconnect
  on_transport_close leg code remote d =
      let (next, done) = handle_failure leg (remote && not d.life.user_closed) d in
      if not (is_candidate d.race leg)
      then d
      else if is_token_code code
      then fail_fatal RtcError.token d
      else if done
      then next
      else schedule_reconnect config config.signal.reconnect_interval
          (set_state (codes "closed") (end_session next))

  unfoldable pub on_curl_error : CurlCodes → (http_code curl_code : ℤ) → Private → Private
  unfolding handle_failure fail_fatal schedule_reconnect
  on_curl_error curl http_code curl_code d =
      let (next, done) = handle_failure Leg.curl true d in
      if not (is_candidate d.race Leg.curl) || not d.life.owner
      then d
      else if is_token_code http_code
      then fail_fatal RtcError.token d
      else if contains curl_code curl.ssl_codes
      then fail_fatal RtcError.ssl d
      else if done
      then next
      else if curl_code == curl.operation_timedout || curl_code == curl.never_connected
      then fail_fatal RtcError.signal_failed next
      else lost next

  unfoldable pub on_quic_error : QuicErrorKind → (http_code : ℤ) → Private → Private
  unfolding handle_failure fail_fatal schedule_reconnect
  on_quic_error kind http_code d =
      let (next, done) = handle_failure Leg.quic true d in
      if not (is_candidate d.race Leg.quic) || not d.life.owner
      then d
      else if is_http kind && is_token_code http_code
      then fail_fatal RtcError.token d
      else if is_ssl kind
      then fail_fatal RtcError.ssl d
      else if done
      then next
      else if is_final kind
      then fail_fatal RtcError.signal_failed next
      else lost next

  unfoldable pub on_callback : CurlCodes → Callback → Private → Private
  unfolding on_transport_open on_transport_close on_curl_error on_quic_error
  on_callback curl (Callback.on_open leg) d = on_transport_open leg d
  on_callback curl (Callback.on_close leg code remote) d = on_transport_close leg code remote d
  on_callback curl (Callback.on_curl_error http code) d = on_curl_error curl http code d
  on_callback curl (Callback.on_quic_error kind http) d = on_quic_error kind http d
