-- ===== src/Signal/Connect/Kept.antt =====
-- What closing and sending keep: whatever the small steps of the handlers keep.
use bff_rtc_base.Base.{true, refl, List, [], ◌∷◌, nat_eq}
use bff_rtc_base.Signal.Config.{Config}
use bff_rtc_base.Signal.Race.{Leg}
use bff_rtc_base.Signal.State.{Private}
use bff_rtc_base.Signal.Links.{Links, CurlCodes, Callback}
use bff_rtc_base.Signal.Connection.{close_transports}
use bff_rtc_base.Signal.Connection.Closing.{
  close_transports-KeptClosing, close_leg-KeptClosing, cancel_race-KeptClosing,
}
use bff_rtc_base.Signal.Connection.Kept.{Kept, on_callback-Kept}
use bff_rtc_base.Signal.Connect.{on_callbacks, close_all_joining, close_up_to}

module _ {links : Links} {config : Config} (curl : CurlCodes) {P : Private → Type 0}
    (k : Kept links config P) where
  on_callbacks-Kept :
      (during : List Callback) (d : Private) → P d → P (on_callbacks links config curl during d)
  unfolding on_callbacks
  on_callbacks-Kept [] d p = p
  on_callbacks-Kept (c ∷ cs) d p = on_callbacks-Kept cs _ (on_callback-Kept k curl c d p)

  pub close_all_joining-Kept :
      (during : List Callback) (d : Private)
      → P d
      → P (close_all_joining links config curl during d)
  unfolding close_all_joining
  close_all_joining-Kept during d p =
      k.closing.race (on_callbacks links config curl during (close_transports true d)) _
        (on_callbacks-Kept during _ (close_transports-KeptClosing k.closing true d p))

  pub close_up_to-Kept :
      (leg : Leg) (during : List Callback) (d : Private)
      → P d
      → P (close_up_to links config curl leg during d)
  unfolding close_up_to
  close_up_to-Kept Leg.curl during d p = k.closing.effect _ _ refl (k.closing.race d _ p)
  close_up_to-Kept Leg.quic during d p = k.closing.effect _ _ refl (
      on_callbacks-Kept during _ (
        close_leg-KeptClosing k.closing true Leg.curl _
          (cancel_race-KeptClosing k.closing true d p)))
