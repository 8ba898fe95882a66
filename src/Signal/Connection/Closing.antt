-- ===== src/Signal/Connection/Closing.antt =====
-- What closing the transports keeps: a predicate that the small steps it is made of keep.
use bff_rtc_base.Base.{Bool, true, false, ◌≡◌, refl, ◌⊎◌, inl, inr, List, [], ◌∷◌, ℤ, if-both}
use bff_rtc_base.Signal.Config.{RtcError}
use bff_rtc_base.Signal.Race.{Leg, Race, cancel_mixed_race}
use bff_rtc_base.Signal.State.{Private, Life, Effect, Notice, emit, enumerate_listeners, notices}
use bff_rtc_base.Signal.Connection.{
  set_race, set_life, set_suppress, end_session, close_leg, cancel_race, close_transports,
  close_all_async, stop_keepalive, start_keepalive, fail_fatal, owner_error,
}

-- Neither opens a transport nor waits to reconnect.
abbrev pub is_plain : Effect → Bool
is_plain (Effect.opened leg url sni) = false
is_plain (Effect.reconnect_thread gen delay url) = false
is_plain _ = true

-- The fields of the life that the small steps may change: the generation and the time of the
-- keepalive, the state's name and the last code. Reconnecting may be suppressed.
abbrev pub IsCalm : Life → Life → Type 0
IsCalm old new =
    (new.owner ≡ old.owner)
    × (new.user_closed ≡ old.user_closed)
    × (new.reconnect_count ≡ old.reconnect_count)
    × ((new.suppress_reconnect ≡ old.suppress_reconnect) ⊎ (new.suppress_reconnect ≡ true))

-- The steps that closing the transports is made of.
pub record KeptClosing (P : Private → Type 0) : Type 0 where
  pub race : (d : Private) (r : Race) → P d → P (set_race d r)
  pub life : (d : Private) (l : Life) → IsCalm d.life l → P d → P (set_life d l)
  pub effect : (e : Effect) (d : Private) → is_plain e ≡ true → P d → P (emit e d)

module _ {P : Private → Type 0} (k : KeptClosing P) where
  pub notices-KeptClosing :
      (n : Notice) (channels : List ℤ) (d : Private) (trace : List Effect)
      → P (record d { trace = trace })
      → P (record d { trace = notices n channels trace })
  unfolding notices emit
  notices-KeptClosing n [] d trace p = p
  notices-KeptClosing n (c ∷ channels) d trace p =
      notices-KeptClosing n channels d (Effect.notified c n ∷ trace)
        (k.effect (Effect.notified c n) (record d { trace = trace }) refl p)

  pub enumerate_listeners-KeptClosing :
      (n : Notice) (d : Private) → P d → P (enumerate_listeners n d)
  unfolding enumerate_listeners
  enumerate_listeners-KeptClosing n d p = notices-KeptClosing n d.listeners d d.trace p

  pub close_leg-KeptClosing :
      (join : Bool) (leg : Leg) (d : Private) → P d → P (close_leg join leg d)
  close_leg-KeptClosing true leg d p = k.effect (Effect.closed leg) d refl p
  close_leg-KeptClosing false leg d p = k.effect (Effect.closed_async leg) d refl p

  pub cancel_race-KeptClosing : (join : Bool) (d : Private) → P d → P (cancel_race join d)
  unfolding cancel_race
  cancel_race-KeptClosing join d p =
      let (race, close_alt) = cancel_mixed_race d.race in
      let q = k.race d race p in
      if-both P close_alt (close_leg-KeptClosing join Leg.curl (set_race d race) q) q

  pub close_transports-KeptClosing : (join : Bool) (d : Private) → P d → P (close_transports join d)
  unfolding close_transports
  close_transports-KeptClosing join d p =
      close_leg-KeptClosing join Leg.quic _
        (close_leg-KeptClosing join Leg.curl _ (cancel_race-KeptClosing join d p))

  pub close_all_async-KeptClosing : (d : Private) → P d → P (close_all_async d)
  unfolding close_all_async
  close_all_async-KeptClosing d p =
      k.race (close_transports false d) _ (close_transports-KeptClosing false d p)

  pub stop_keepalive-KeptClosing : (d : Private) → P d → P (stop_keepalive d)
  unfolding stop_keepalive
  stop_keepalive-KeptClosing d p = k.life d _ (refl, refl, refl, inl refl) p

  pub start_keepalive-KeptClosing : (d : Private) → P d → P (start_keepalive d)
  unfolding start_keepalive
  start_keepalive-KeptClosing d p = k.effect _ _ refl (k.life d _ (refl, refl, refl, inl refl) p)

  pub suppress-KeptClosing : (d : Private) → P d → P (set_suppress true d)
  suppress-KeptClosing d p = k.life d _ (refl, refl, refl, inr refl) p

  pub owner_error-KeptClosing : (err : RtcError) (d : Private) → P d → P (owner_error err d)
  owner_error-KeptClosing err d p =
      if-both P d.life.owner (enumerate_listeners-KeptClosing (Notice.on_error err) d p) p

  pub fail_fatal-KeptClosing : (err : RtcError) (d : Private) → P d → P (fail_fatal err d)
  unfolding fail_fatal
  fail_fatal-KeptClosing err d p =
      let suppressed = set_suppress true (stop_keepalive d) in
      let ended = end_session (close_all_async suppressed) in
      let q : P ended = k.race _ _ (
        close_all_async-KeptClosing suppressed
          (suppress-KeptClosing _ (stop_keepalive-KeptClosing d p))) in
      if-both P ended.life.owner (enumerate_listeners-KeptClosing (Notice.on_error err) ended q) q
