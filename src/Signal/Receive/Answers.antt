-- ===== src/Signal/Receive/Answers.antt =====
-- The answer to the leave request (Signal.cpp lines 627 to 664 and 1605 to 1682).
use bff_rtc_base.Base.{ℕ, true, ◌≡◌, List, ◌∷◌, int_eq, nat_eq, bytes_eq}
use bff_rtc_base.Signal.Config.{Config}
use bff_rtc_base.Signal.Race.{Leg}
use bff_rtc_base.Signal.State.{Private, Effect}
use bff_rtc_base.Signal.Links.{Links}
use bff_rtc_base.Signal.Response.{Response}
use bff_rtc_base.Signal.Receive.{Verdict}

-- The last that was done is that the thread of a transport is to join itself.
abbrev pub JoinsItself : Private → Type 0
JoinsItself d = (leg : Leg) × (before : List Effect) × (d.trace ≡ Effect.joined_itself leg ∷ before)

-- The user has disconnected and waits for the answer to the request `id`.
pub record IsWaiting (id : ℕ) (d : Private) : Type 0 where
  pub closing : d.life.disconnect_closing ≡ true
  pub leave : d.life.disconnect_leave_req_id ≡ id

abbrev Expects : ℕ → Private × Verdict → Type 0
Expects id (d, Verdict.goes_on reset) = IsWaiting id d
Expects id (d, Verdict.stops) = JoinsItself d
