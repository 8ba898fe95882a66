-- ===== src/Signal/Race.antt =====
-- The race of the two transports (Signal.cpp lines 257 to 471): the state that
-- `race_mtx` guards, and what each locked block makes of it.
use bff_rtc_base.Base.{
  ℕ, ◌+◌, ◌%◌, ◌^◌, Bool, true, false, ◌&&◌, ◌||◌, Option, none, some, Bytes, if◌then◌else◌, ◌==◌,
  nat_eq, is_empty, not,
}

pub data Leg : Type 0 where
  curl quic : Leg

pub record Race : Type 0 where
  pub primary_leg : Leg
  pub has_alt : Bool
  pub session_open : Bool
  pub mixed_delay_gen : ℕ
  pub mixed_delay_pending : Bool
  pub pending_url : Bytes
  pub pending_sni : Bytes

abbrev pub is_leg : Leg → Leg → Bool
is_leg curl curl = true
is_leg quic quic = true
is_leg _ _ = false

-- uint64_t counters
abbrev pub next_gen : ℕ → ℕ
next_gen gen = (gen + 1) % 2 ^ 64

abbrev pub is_alt : Race → Leg → Bool
is_alt r leg = r.has_alt && is_leg leg curl && is_leg r.primary_leg quic

abbrev pub is_candidate : Race → Leg → Bool
is_candidate r leg = is_leg leg r.primary_leg || is_alt r leg

abbrev pub is_mixed_racing : Race → Bool
is_mixed_racing r = r.has_alt || r.mixed_delay_pending

unfoldable pub cancel_mixed_delay_only : Race → Race
cancel_mixed_delay_only r = record r {
  mixed_delay_gen = next_gen r.mixed_delay_gen;
  mixed_delay_pending = false;
}

-- The race, and whether the TCP leg has to be closed.
unfoldable pub cancel_mixed_race : Race → Race × Bool
unfolding cancel_mixed_delay_only
cancel_mixed_race r = (record (cancel_mixed_delay_only r) { has_alt = false }, r.has_alt)

-- The race, and the leg that has lost; `none` where there is nothing to decide.
unfoldable pub mixed_declare_winner : Race → Leg → Race × Option Leg
unfolding cancel_mixed_delay_only
mixed_declare_winner r winner =
    let cancelled = cancel_mixed_delay_only r in
    let settled = record cancelled { has_alt = false } in
    let promoted = record cancelled { has_alt = false; primary_leg = winner } in
    if is_leg winner r.primary_leg
    then if r.has_alt then (settled, some curl) else (cancelled, none)
    else if is_alt r winner
    then (promoted, some r.primary_leg)
    else (cancelled, none)

-- The start of the delay: a new generation, which the timer thread keeps.
unfoldable pub begin_mixed_delay : Race → Race
unfolding cancel_mixed_delay_only
begin_mixed_delay r = record (cancel_mixed_delay_only r) { mixed_delay_pending = true }

-- The timer thread of generation `gen`, once it has slept: `none` where it is out of date.
unfoldable pub mixed_timer : ℕ → Race → Option Race
mixed_timer gen r =
    if r.mixed_delay_gen == gen then some (record r { mixed_delay_pending = false }) else none

-- The locked block of the TCP fallback before it opens: the address to open, if it may.
unfoldable pub fallback_address :
    (user_closed quic_open : Bool) → Race → Race × Option (Bytes × Bytes)
unfolding cancel_mixed_delay_only
fallback_address user_closed quic_open r =
    let cancelled = cancel_mixed_delay_only r in
    if user_closed || r.session_open || r.has_alt
    then (r, none)
    else if quic_open || is_empty r.pending_url
    then (cancelled, none)
    else (cancelled, some (r.pending_url, r.pending_sni))

-- The locked block behind the opening: the race, and whether the new leg is closed again.
unfoldable pub fallback_opened : (user_closed : Bool) → Race → Race × Bool
fallback_opened user_closed r =
    if user_closed || r.session_open then (r, true) else (record r { has_alt = true }, false)

-- What a failure of a transport comes to: the caller goes on with the failure, it is dealt with,
-- or a TCP fallback is started.
pub data Failure : Type 0 where
  failed handled start_tcp : Failure

abbrev quic_failure : Race → Bool → Race × Failure
quic_failure r allow_quic_fallback =
    let cancelled = cancel_mixed_delay_only r in
    if r.has_alt
    then (
      record cancelled {
        primary_leg = if is_leg quic r.primary_leg then curl else r.primary_leg;
        has_alt = false;
      },
      handled,
    )
    else (cancelled, if allow_quic_fallback then start_tcp else failed)

-- The first locked block of `handleMixedTransportFailure`; `quic_alive` is whether the QUIC
-- transport is connecting or open.
unfoldable pub transport_failure : (mixed quic_alive : Bool) → Race → Leg → Bool → Race × Failure
unfolding cancel_mixed_delay_only
transport_failure mixed quic_alive r leg allow_quic_fallback =
    if not r.session_open && mixed && is_leg leg quic
    then quic_failure r allow_quic_fallback
    else if not r.session_open && mixed && is_alt r leg
    then (record r { has_alt = false }, if quic_alive then handled else failed)
    else (r, failed)

-- The second locked block, after a fallback was tried: is TCP the leg to wait for now?
unfoldable pub adopt_fallback : Race → Race × Bool
adopt_fallback r =
    if r.has_alt then (record r { primary_leg = curl; has_alt = false }, true) else (r, false)

-- What the locked block of `onTransportOpen` finds.
pub data Opened : Type 0 where
  not_candidate already_closing discard_alt : Opened
  open_racing open_alone : Opened

unfoldable pub transport_opened : (user_closed : Bool) → Race → Leg → Race × Opened
unfolding cancel_mixed_delay_only
transport_opened user_closed r leg =
    let racing = is_mixed_racing r || is_alt r leg in
    if not (is_candidate r leg)
    then (r, not_candidate)
    else if user_closed
    then (
      record r { has_alt = if is_alt r leg then false else r.has_alt; session_open = false },
      already_closing,
    )
    else if r.session_open && is_alt r leg
    then (record r { has_alt = false }, discard_alt)
    else if racing
    then (record r { session_open = true }, open_racing)
    else (record (cancel_mixed_delay_only r) { session_open = true }, open_alone)
