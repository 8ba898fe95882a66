-- ===== src/Signal/Connect.antt =====
-- Connecting and disconnecting (Signal.cpp lines 351 to 364, 627 to 663, 680 to 728, 733 to 784,
-- 858 to 873, 968 to 1011 and 1106 to 1142), and the threads that sleep.
pub mod Steps
pub mod Kept
pub mod Quiet
pub mod Reconnects
pub mod Limit
pub mod Bounded
pub mod Begin
use bff_rtc_base.Base.{
  ℕ, ◌-◌, Bool, true, false, ◌&&◌, not, List, [], ◌∷◌, Option, none, some, Bytes, codes,
  if◌then◌else◌, ◌==◌, nat_eq, is_empty, ℤ, pos, leb_ℤ,
}
use mathlib.Core.Option
use bff_rtc_base.Url.{Hosts, host_from_url, port_from_url, sni_host_for_url}
use bff_rtc_base.Url.Token.{replace_token_query}
use bff_rtc_base.Signal.Config.{Config, is_mixed, is_curl}
use bff_rtc_base.Signal.Race.{
  Race, Leg, next_gen, begin_mixed_delay, mixed_timer, cancel_mixed_race,
}
use bff_rtc_base.Signal.State.{
  Private, connect_timeout, opened, joined_itself, mixed_thread, disconnect_thread, emit,
}
use bff_rtc_base.Signal.Links.{Links, CurlCodes, Callback, QuicErrorKind}
use bff_rtc_base.Signal.Send.{send_leave}
use bff_rtc_base.Signal.Connection.{
  set_race, set_life, set_suppress, set_state, close_transports, close_leg, cancel_race,
  forget_session, stop_keepalive, schedule_reconnect, start_tcp_fallback, on_quic_error,
  on_callback,
}

abbrev is_late : (timeout : ℤ) → (now : ℕ) → Option ℕ → Bool
is_late timeout now none = false
is_late timeout now (some recv_at) = leb_ℤ timeout (pos (now - recv_at))

module _ (links : Links) (config : Config) (curl : CurlCodes) where
  -- The callbacks that run while the old transports are joined, one after the other.
  unfoldable pub on_callbacks : List Callback → Private → Private
  unfolding on_callback
  on_callbacks [] d = d
  on_callbacks (c ∷ cs) d = on_callbacks cs (on_callback links config curl c d)

  -- `closeAllTransports(true)`
  unfoldable pub close_all_joining : List Callback → Private → Private
  unfolding close_transports on_callbacks
  close_all_joining during d = forget_session (on_callbacks during (close_transports true d))

  unfoldable pub schedule_tcp_fallback : Private → Private
  unfolding start_tcp_fallback begin_mixed_delay emit
  schedule_tcp_fallback d =
      let waiting = begin_mixed_delay d.race in
      if leb_ℤ config.signal.mixed_delay (pos 0)
      then start_tcp_fallback links config d
      else emit (mixed_thread waiting.mixed_delay_gen config.signal.mixed_delay)
          (set_race d waiting)

  abbrev pub retire : Private → Private
  retire d =
      let stopped =
        stop_keepalive
          (set_life d (record d.life { reconnect_gen = next_gen d.life.reconnect_gen })) in
      set_suppress true (record stopped {
        auth_token = if is_empty stopped.token then stopped.auth_token else stopped.token;
      })

  -- The old transports are closed, with reconnecting suppressed.
  unfoldable pub prepare_connect : List Callback → Private → Private
  unfolding stop_keepalive close_all_joining
  prepare_connect during d =
      let emptied = set_suppress false (close_all_joining during (retire d)) in
      set_life emptied (record emptied.life { user_closed = false })

  -- The transport of the implementation is asked to open.
  abbrev pub start_opening : (token_url sni : Bytes) → Private → Private
  start_opening token_url sni d =
      let timed =
        emit (connect_timeout Leg.quic config.signal.connect_timeout)
          (emit (connect_timeout Leg.curl config.signal.connect_timeout) d) in
      let leg = if is_curl config.signal.implementation then Leg.curl else Leg.quic in
      let race = record timed.race {
        pending_url = token_url;
        pending_sni = sni;
        session_open = false;
        has_alt = false;
        primary_leg = leg;
      } in
      emit (opened leg token_url sni) (set_race timed race)

  -- `onQuicError`, which a failing `QuicSocket::open` calls before it returns.
  abbrev pub open_failed : Option (QuicErrorKind × ℤ) → Private → Private
  open_failed none d = d
  open_failed (some (kind, http_code)) d = on_quic_error links config kind http_code d

  -- Behind the answer of `open`: TCP is to follow QUIC in the mixed implementation. `WebSocket::open`
  -- reports its errors from its own thread.
  unfoldable pub finish_opening : Bool → Private → Private × Bool
  unfolding schedule_tcp_fallback on_quic_error
  finish_opening ok opening =
      if ok
      then (
        if is_mixed config.signal.implementation then schedule_tcp_fallback opening else opening,
        true,
      )
      else (
        if is_curl config.signal.implementation
            then opening
            else open_failed (links.open_error opening.trace) opening,
        false,
      )

  unfoldable pub open_transports : (token_url sni : Bytes) → Private → Private × Bool
  unfolding finish_opening emit
  open_transports token_url sni d =
      let opening = start_opening token_url sni d in
      let leg = if is_curl config.signal.implementation then Leg.curl else Leg.quic in
      finish_opening (links.opens leg opening.trace) opening

  -- `none` where `std::stoul` throws on the port of the address.
  unfoldable pub begin_connect : List Callback → Bytes → Private → Option (Private × Bool)
  unfolding prepare_connect open_transports
  begin_connect during url d0 =
      let d = prepare_connect during d0 in
      Option.map (λ sni. open_transports (replace_token_query url d.auth_token) sni d)
        (sni_host_for_url config.sni url d.hosts)

  -- `connect`, and its result.
  unfoldable pub connect : List Callback → Bytes → Private → Option (Private × Bool)
  unfolding begin_connect
  connect during url d =
      begin_connect during url
        (set_life d (record d.life { server_url = url; state_string = codes "connecting" }))

  -- The thread of a mixed delay, once it has slept.
  unfoldable pub mixed_delay_over : ℕ → Private → Private
  unfolding start_tcp_fallback mixed_timer
  mixed_delay_over gen d = elim (mixed_timer gen d.race) [
    | none ↦ d
    | some race ↦ start_tcp_fallback links config (set_race d race)
  ]

  abbrev pub may_reconnect : ℕ → Bytes → Private → Bool
  may_reconnect gen url d =
      (d.life.reconnect_gen == gen) && not d.life.user_closed && not (is_empty url) && d.life.owner

  -- The thread of a reconnection, once it has slept.
  unfoldable pub reconnect_delay_over : List Callback → ℕ → Bytes → Private → Option Private
  unfolding begin_connect
  reconnect_delay_over during gen url d =
      if may_reconnect gen url d
      then Option.map (λ r. r.0) (begin_connect during url (set_state (codes "connecting") d))
      else some d

  -- The end of the ping timeout in the thread of `startKeepalive`, at the time `now`.
  unfoldable pub ping_overdue : ℕ → ℕ → Private → Private
  unfolding schedule_reconnect
  ping_overdue gen now d =
      let alive = (d.life.keepalive_gen == gen) && not d.life.user_closed && d.life.owner in
      let timeout = config.signal.ping_timeout in
      let late = is_late timeout now d.life.last_recv_ms in
      if alive && leb_ℤ (pos 1) timeout && late then schedule_reconnect config (pos 0) d else d

  abbrev pub cancel_disconnect_wait : Private → Private
  cancel_disconnect_wait d = set_life d (record d.life {
    disconnect_closing = false;
    disconnect_leave_req_id = 0;
    disconnect_close_gen = next_gen d.life.disconnect_close_gen;
  })

  unfoldable pub close_after_disconnect : List Callback → Private → Private
  unfolding close_all_joining
  close_after_disconnect during d =
      if d.life.disconnect_closing then close_all_joining during (cancel_disconnect_wait d) else d

  -- The thread that waits for the answer to the leave request, once it has slept.
  unfoldable pub disconnect_wait_over : List Callback → ℕ → Private → Private
  unfolding close_after_disconnect
  disconnect_wait_over during gen d =
      if (d.life.disconnect_close_gen == gen) && d.life.disconnect_closing
      then close_after_disconnect during d
      else d

  -- The same call in the handler of responses, which runs on the thread of the transport `leg`: the
  -- transports are closed up to that one, whose thread is then to join itself. `std::thread::join`
  -- throws there, and `QuicSocket` must not be closed from its loop; nothing that follows is done.
  unfoldable pub close_up_to : Leg → List Callback → Private → Private
  unfolding cancel_race cancel_mixed_race on_callbacks emit
  close_up_to Leg.curl during d =
      emit (joined_itself Leg.curl) (set_race d (cancel_mixed_race d.race).0)
  close_up_to Leg.quic during d =
      emit (joined_itself Leg.quic)
        (on_callbacks during (close_leg true Leg.curl (cancel_race true d)))

  unfoldable pub close_in_handler : List Callback → Private → Private
  unfolding close_up_to
  close_in_handler during d =
      if d.life.disconnect_closing
      then close_up_to d.race.primary_leg during (cancel_disconnect_wait d)
      else d

  abbrev pub answers_leave : ℕ → Private → Bool
  answers_leave req_id d =
      let leave = d.life.disconnect_leave_req_id in
      d.life.disconnect_closing && not (leave == 0) && leave == req_id

  unfoldable pub maybe_close_after_response : List Callback → ℕ → Private → Private
  unfolding close_in_handler
  maybe_close_after_response during req_id d =
      if answers_leave req_id d then close_in_handler during d else d

  abbrev pub start_disconnect : Private → Private
  start_disconnect d =
      let stopped = stop_keepalive (
        set_life d
          (record d.life { user_closed = true; reconnect_gen = next_gen d.life.reconnect_gen })) in
      set_life stopped
        (record stopped.life { state_string = codes "closing"; disconnect_closing = true })

  abbrev schedule_disconnect_timeout : ℕ → Private → Private
  schedule_disconnect_timeout leave d =
      let gen = next_gen d.life.disconnect_close_gen in
      emit (disconnect_thread gen config.signal.ping_timeout)
        (set_life d (record d.life { disconnect_leave_req_id = leave; disconnect_close_gen = gen }))

  unfoldable pub disconnect : List Callback → Private → Private
  unfolding stop_keepalive send_leave close_after_disconnect emit
  disconnect during d =
      let (asked, leave) = send_leave links (start_disconnect d) in
      let last =
        if leave == 0
        then close_after_disconnect during asked
        else schedule_disconnect_timeout leave asked in
      record last { requests = record last.requests { pending_reqs = [] } }

  abbrev pub reset_for_url : Bytes → ℕ → Hosts → Private → Private
  reset_for_url best_url port hosts d = record d {
    hosts = hosts;
    host = host_from_url best_url;
    port = port;
    life = record d.life {
      server_url = best_url;
      reconnect_count = 0;
      last_code = pos 0;
      state_string = codes "connecting";
    };
    cache = record {
      node_rtts = [];
      node_rtts_sent_channels = [];
      legacy_node_rtts_channels = [];
      rtts = [];
    };
    last_offer = [];
    requests = record d.requests {
      important_reqs = [];
      auto_media_join = true;
      subscribing = false;
      join_all_requested = false;
    };
  }

  -- The callback of `connectBestUrl`; `hosts` is empty where the selector gives none.
  unfoldable pub connect_best_url : List Callback → Bytes → Hosts → Private → Option Private
  unfolding begin_connect
  connect_best_url during best_url hosts d =
      if d.life.owner
      then elim (port_from_url best_url) [
        | none ↦ none
        | some port ↦
            Option.map (λ r. r.0)
              (begin_connect during best_url (reset_for_url best_url port hosts d))
      ]
      else some d
