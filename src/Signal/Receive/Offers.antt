-- ===== src/Signal/Receive/Offers.antt =====
-- An offer that comes again (Signal.cpp lines 1492 to 1510).
use mathlib.Core.Path.{subst}
use bff_rtc_base.Base.{
  ℕ, true, false, ◌≡◌, refl, sym, ap, ◌∙◌, ◌⊎◌, inl, inr, Option, Bytes, ℤ, List, if-both, if-cases,
  if-true, if-false, if-true, is_empty, nat_eq, bytes_eq, bytes_beq_iff, ◌==◌, to_i32, arith,
  contains, int_eq, not,
}
use bff_rtc_base.Signal.Config.{Config}
use bff_rtc_base.Signal.Request.{SessionDescription}
use bff_rtc_base.Signal.State.{Private, emit}
use bff_rtc_base.Signal.Links.{Links, CurlCodes, Callback}
use bff_rtc_base.Signal.Connection.{set_life}
use bff_rtc_base.Signal.Connect.{answers_leave, close_in_handler, maybe_close_after_response}
use bff_rtc_base.Signal.Response.{Response, Reply, Codec, resolve_desc_sdp}
use bff_rtc_base.Signal.Receive.{
  Moment, take_offer, forget_request, reset_ping, take_reply, after_reply, handle_response,
}

-- The offer is taken already, or says nothing.
abbrev IsKnown : Bytes → Private → Type 0
IsKnown sdp d = (is_empty sdp ≡ true) ⊎ (d.last_offer ≡ sdp)

take_offer-IsKnown :
    (channel : ℤ) (from sdp : Bytes) (d : Private) → IsKnown sdp (take_offer channel from sdp d)
unfolding take_offer
take_offer-IsKnown channel from sdp d =
    if-cases (IsKnown sdp) (is_empty sdp) (λ h. inl h)
      (λ _.
        if-cases (IsKnown sdp) (sdp == d.last_offer)
          (λ h. inr (sym ((bytes_beq_iff sdp d.last_offer).0 h))) (λ _. inr refl))

take_offer-known :
    (channel : ℤ) (from sdp : Bytes) (d : Private)
    → IsKnown sdp d
    → take_offer channel from sdp d ≡ d
unfolding take_offer
take_offer-known channel from sdp d (inl h) = if-true d _ h
take_offer-known channel from sdp d (inr h) =
    if-both (λ (e : Private). e ≡ d) (is_empty sdp) refl
      (if-true d _ ((bytes_beq_iff sdp d.last_offer).1 (sym h)))

take_offer-life :
    (channel : ℤ) (from sdp : Bytes) (d : Private) → (take_offer channel from sdp d).life ≡ d.life
unfolding take_offer emit
take_offer-life channel from sdp d =
    if-both (λ (e : Private). e.life ≡ d.life) (is_empty sdp) refl
      (if-both (λ (e : Private). e.life ≡ d.life) (sdp == d.last_offer) refl
        (if-both (λ (e : Private). e.life ≡ d.life) (contains channel d.listeners) refl refl))

module _ (links : Links) (config : Config) (curl : CurlCodes) (codec : Codec) where
  -- What the handler makes of an offer while no disconnect waits.
  abbrev settled : Moment → Response → Bytes → Private → Private
  settled m r sdp d =
      let taken =
        forget_request r.id (take_offer (to_i32 r.channel) r.from sdp (reset_ping m.steady_ms d)) in
      set_life taken (record taken.life { reconnect_count = 0 })

  maybe_close_after_response-idle :
      (during : List Callback) (id : ℕ) (d : Private)
      → d.life.disconnect_closing ≡ false
      → maybe_close_after_response links config curl during id d ≡ d
  unfolding maybe_close_after_response
  maybe_close_after_response-idle during id d open_ =
      if-false {b = answers_leave links config curl id d}
        (close_in_handler links config curl during d) d (ground arith)

  handle_response-offer :
      (m : Moment) (r : Response) (desc : Option SessionDescription) (d : Private)
      → r.reply ≡ Reply.offer desc
      → d.life.disconnect_closing ≡ false
      → handle_response links config curl codec m r d ≡ settled m r (resolve_desc_sdp codec desc) d
  unfolding handle_response take_reply after_reply maybe_close_after_response
  handle_response-offer m r desc d said open_ =
      let sdp = resolve_desc_sdp codec desc in
      let heard = reset_ping m.steady_ms d in
      let taken = forget_request r.id (take_offer (to_i32 r.channel) r.from sdp heard) in
      let idle : taken.life.disconnect_closing ≡ false =
        ap (λ l. l.disconnect_closing) (take_offer-life (to_i32 r.channel) r.from sdp heard)
        ∙ open_ in
      let closed = maybe_close_after_response links config curl m.during r.id taken in
      ap
        (λ reply.
          after_reply links config curl codec m.during r.id
            (take_reply links config curl codec m r (to_i32 r.channel) reply heard))
        said
      ∙ if-true {b = not (answers_leave links config curl r.id taken)}
          (set_life closed (record closed.life { reconnect_count = 0 })) closed
          (ground (arith, idle))
      ∙ ap (λ (e : Private). set_life e (record e.life { reconnect_count = 0 }))
          (maybe_close_after_response-idle m.during r.id taken idle)

  -- While no disconnect waits, an offer whose description was the last one already makes the code do
  -- nothing outside: the listener is told of the first one alone, if of any.
  pub handle_response-offer_again :
      (m1 m2 : Moment) (r1 r2 : Response) (desc1 desc2 : Option SessionDescription) (d : Private)
      → r1.reply ≡ Reply.offer desc1
      → r2.reply ≡ Reply.offer desc2
      → resolve_desc_sdp codec desc1 ≡ resolve_desc_sdp codec desc2
      → d.life.disconnect_closing ≡ false
      → (handle_response links config curl codec m2 r2
          (handle_response links config curl codec m1 r1 d)).trace
        ≡ (handle_response links config curl codec m1 r1 d).trace
  handle_response-offer_again m1 m2 r1 r2 desc1 desc2 d said1 said2 same open_ =
      let sdp1 = resolve_desc_sdp codec desc1 in
      let sdp2 = resolve_desc_sdp codec desc2 in
      let heard = reset_ping m1.steady_ms d in
      let first = settled m1 r1 sdp1 d in
      let again = reset_ping m2.steady_ms first in
      let known : IsKnown sdp2 again =
        subst (λ sdp. IsKnown sdp first) same
          (take_offer-IsKnown (to_i32 r1.channel) r1.from sdp1 heard) in
      let idle : first.life.disconnect_closing ≡ false =
        ap (λ l. l.disconnect_closing) (take_offer-life (to_i32 r1.channel) r1.from sdp1 heard)
        ∙ open_ in
      let one = handle_response-offer m1 r1 desc1 d said1 open_ in
      ap (λ (e : Private). (handle_response links config curl codec m2 r2 e).trace) one
      ∙ ap (λ (e : Private). e.trace) (handle_response-offer m2 r2 desc2 first said2 idle)
      ∙ ap (λ (e : Private). e.trace)
          (take_offer-known (to_i32 r2.channel) r2.from sdp2 again known)
      ∙ ap (λ (e : Private). e.trace) (sym one)
