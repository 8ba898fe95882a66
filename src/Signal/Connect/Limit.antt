-- ===== src/Signal/Connect/Limit.antt =====
-- One reconnection more, and one counted more.
use bff_rtc_base.Base.{
  ℕ, suc, ◌≤◌, true, false, refl, inl, ℤ, pos, arith, nat_eq, ◌||◌, if-both, if-cases, ◌+◌, leb_ℤ,
  pos_part, codes,
}
use bff_rtc_base.Signal.Config.{Config, RtcError}
use bff_rtc_base.Signal.Race.{next_gen}
use bff_rtc_base.Signal.State.{Private, Effect, Notice, emit}
use bff_rtc_base.Signal.Connection.{
  give_up, reconnect_later, announce_reconnect, schedule_reconnect, set_life, set_state,
  set_suppress, clamp, close_for_reconnect, end_session, stop_keepalive, close_all_async,
}
use bff_rtc_base.Signal.Connection.Closing.{
  KeptClosing, owner_error-KeptClosing, close_all_async-KeptClosing, stop_keepalive-KeptClosing,
  suppress-KeptClosing, enumerate_listeners-KeptClosing,
}
use bff_rtc_base.Signal.Connect.Reconnects.{reconnects, reconnects-plain}

-- The threads that were started, and `j` more, are counted; `k` stands for those before.
pub record IsBounded (m k j : ℕ) (d : Private) : Type 0 where
  pub threads : reconnects d.trace + j ≤ k + d.life.reconnect_count
  pub limit : d.life.reconnect_count ≤ m

pub IsBounded-closing : (m k j : ℕ) → KeptClosing (IsBounded m k j)
unfolding emit
IsBounded-closing m k j = record {
  race = λ d r b. record { threads = b.threads; limit = b.limit };
  life = λ d l calm b. record {
    threads = let t = b.threads in let c = calm.2 in omega arith;
    limit = let t = b.limit in let c = calm.2 in omega arith;
  };
  effect = λ e d h b. record {
    threads = let t = b.threads in let p = reconnects-plain e d.trace h in omega arith;
    limit = b.limit;
  };
}

module _ (config : Config) {m k j : ℕ} (fits : pos_part config.signal.reconnect_max_times ≤ m) where
  give_up-IsBounded : (d : Private) → IsBounded m k j d → IsBounded m k j (give_up d)
  unfolding give_up
  give_up-IsBounded d b =
      let closing = IsBounded-closing m k j in
      let quiet = set_suppress true (stop_keepalive d) in
      let closed = close_all_async quiet in
      let ended = set_state (codes "closed") (end_session closed) in
      let q = close_all_async-KeptClosing closing quiet (
        suppress-KeptClosing closing (stop_keepalive d) (stop_keepalive-KeptClosing closing d b)) in
      owner_error-KeptClosing closing RtcError.signal_failed ended (
        closing.life (end_session closed) ended.life (refl, refl, refl, inl refl)
          (closing.race closed ended.race q))

  -- Once it is counted, there is room for one more thread.
  announce-IsBounded :
      (d : Private)
      → suc d.life.reconnect_count ≤ m
      → IsBounded m k j d
      → IsBounded m k (suc j) (announce_reconnect d)
  announce-IsBounded d le b =
      let counted : IsBounded m k (suc j) (record d {
        life = record d.life { reconnect_count = d.life.reconnect_count + 1 };
        requests = record d.requests { join_all_requested = false; join_requested = false };
      }) =
        record { threads = let t = b.threads in omega arith; limit = omega arith } in
      if-both (IsBounded m k (suc j)) d.life.owner
        (enumerate_listeners-KeptClosing (IsBounded-closing m k (suc j)) Notice.on_reconnect _
          counted)
        counted

  reconnect_later-IsBounded :
      (delay : ℤ) (d : Private)
      → suc d.life.reconnect_count ≤ m
      → IsBounded m k j d
      → IsBounded m k j (reconnect_later delay d)
  unfolding reconnect_later reconnects emit
  reconnect_later-IsBounded delay d le b =
      let closing = IsBounded-closing m k (suc j) in
      let announced = announce_reconnect d in
      let quiet = set_suppress true (stop_keepalive announced) in
      let q = close_all_async-KeptClosing closing quiet (
        suppress-KeptClosing closing (stop_keepalive announced)
          (stop_keepalive-KeptClosing closing announced (announce-IsBounded d le b))) in
      let ready = close_for_reconnect announced in
      let gen = next_gen ready.life.reconnect_gen in
      let waiting =
        emit (Effect.reconnect_thread gen (clamp delay) ready.life.server_url)
          (set_life ready (record ready.life { reconnect_gen = gen })) in
      let closed : IsBounded m k j ready = record {
        threads = let t = q.threads in omega arith;
        limit = q.limit;
      } in
      let started : IsBounded m k j waiting = record {
        threads = let t = q.threads in omega arith;
        limit = q.limit;
      } in
      if-both (IsBounded m k j) ready.life.user_closed closed started

  pub schedule_reconnect-IsBounded :
      (delay : ℤ) (d : Private)
      → IsBounded m k j d
      → IsBounded m k j (schedule_reconnect config delay d)
  unfolding schedule_reconnect
  schedule_reconnect-IsBounded delay d b =
      if-both (IsBounded m k j) (d.life.user_closed || d.life.suppress_reconnect) b (
        if-cases (IsBounded m k j)
          (leb_ℤ config.signal.reconnect_max_times (pos d.life.reconnect_count))
          (λ e. give_up-IsBounded d b) (λ e. reconnect_later-IsBounded delay d (ground arith) b))
