-- ===== src/Signal/Connection/Winner.antt =====
-- How the race of the two transports ends.
use bff_rtc_base.Base.{
  ◌≢◌, if◌then◌else◌, ℕ, zero, suc, ◌+◌, ◌%◌, ◌^◌, ◌<◌, true, false, ◌≡◌, refl, ◌∙◌, ◌&&◌, List, [],
  ◌∷◌, none, ℤ, arith, nat_eq,
}
use bff_rtc_base.Signal.Config.{Config}
use bff_rtc_base.Signal.Race.{
  Leg, curl, quic, Race, is_leg, is_alt, is_candidate, cancel_mixed_delay_only, mixed_timer,
  mixed_declare_winner, transport_opened,
}
use bff_rtc_base.Signal.State.{Private, Effect, Notice, emit, enumerate_listeners, notices}
use bff_rtc_base.Signal.Links.{Links}
use bff_rtc_base.Signal.Connection.{on_transport_open, after_open, declare_winner, start_keepalive}

abbrev pub other : Leg → Leg
other curl = quic
other quic = curl

-- How many times a leg was closed without waiting.
unfoldable pub closings : Leg → List Effect → ℕ
closings leg [] = 0
closings leg (Effect.closed_async l ∷ trace) =
    if is_leg l leg then suc (closings leg trace) else closings leg trace
closings leg (e ∷ trace) = closings leg trace

closings-notices :
    (leg : Leg) (n : Notice) (channels : List ℤ) (trace : List Effect)
    → closings leg (notices n channels trace) ≡ closings leg trace
unfolding notices closings
closings-notices leg n [] trace = refl
closings-notices leg n (c ∷ channels) trace =
    closings-notices leg n channels (Effect.notified c n ∷ trace)

module _ (links : Links) (config : Config) where
  -- The transport that opens first, while the user has not closed the connection, is the one of
  -- the session from then on, neither a second transport nor its timer is left, and the winner is
  -- not closed; a second transport races only beside QUIC.
  pub on_transport_open-wins :
      (leg : Leg) (d : Private)
      → is_candidate d.race leg ≡ true
      → d.life.user_closed ≡ false
      → (d.race.session_open && is_alt d.race leg) ≡ false
      → (d.race.has_alt ≡ true → d.race.primary_leg ≡ quic)
      → let e = on_transport_open links config leg d in
        (e.race.primary_leg ≡ leg)
        × (e.race.has_alt ≡ false)
        × (e.race.session_open ≡ true)
        × (e.race.mixed_delay_pending ≡ false)
        × (closings leg e.trace ≡ closings leg d.trace)
  unfolding on_transport_open transport_opened mixed_declare_winner cancel_mixed_delay_only
      after_open declare_winner start_keepalive enumerate_listeners emit closings
  on_transport_open-wins curl d can open_ first alt = ground (
    arith,
    closings-notices curl (Notice.on_quic false) d.listeners d.trace,
    closings-notices curl (Notice.on_quic false) d.listeners (Effect.closed_async quic ∷ d.trace),
  )
  on_transport_open-wins quic d can open_ first alt = ground (
    arith,
    closings-notices quic (Notice.on_quic true) d.listeners d.trace,
    closings-notices quic (Notice.on_quic true) d.listeners (Effect.closed_async curl ∷ d.trace),
  )

  -- A transport that opens after the user has closed the connection is closed again, and there is
  -- no session.
  on_transport_open-closed :
      (leg : Leg) (d : Private)
      → is_candidate d.race leg ≡ true
      → d.life.user_closed ≡ true
      → let e = on_transport_open links config leg d in
        (e.race.session_open ≡ false) × (e.trace ≡ Effect.closed_async leg ∷ d.trace)
  unfolding on_transport_open transport_opened after_open emit
  on_transport_open-closed leg d can closed = ground arith

-- `k` cancellations of the race, one after the other.
abbrev pub cancelled : ℕ → Race → Race
cancelled zero r = r
cancelled (suc k) r = cancelled k (cancel_mixed_delay_only r)

cancelled-gen :
    (k : ℕ) (r : Race)
    → r.mixed_delay_gen < 2 ^ 64
    → (cancelled k r).mixed_delay_gen ≡ (r.mixed_delay_gen + k) % 2 ^ 64
unfolding cancel_mixed_delay_only
cancelled-gen zero r h = omega arith
cancelled-gen (suc k) r h = cancelled-gen k (cancel_mixed_delay_only r) (omega arith) ∙ omega arith

-- The timer that was started for a race that has been cancelled since, at least once and less than
-- 2^64 times, does nothing; the counter has 64 bits.
mixed_timer-cancelled :
    (k : ℕ) (r : Race)
    → r.mixed_delay_gen < 2 ^ 64
    → 0 < k
    → k < 2 ^ 64
    → mixed_timer r.mixed_delay_gen (cancelled k r) ≡ none
unfolding mixed_timer
mixed_timer-cancelled k r h pos_ lt =
    let e = cancelled-gen k r h in
    let ne : (cancelled k r).mixed_delay_gen ≢ r.mixed_delay_gen = omega arith in ground arith
