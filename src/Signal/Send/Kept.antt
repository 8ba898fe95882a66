-- ===== src/Signal/Send/Kept.antt =====
-- Requests change nothing but their own fields and the trace: what both keep, a request keeps.
use bff_rtc_base.Base.{
  Bool, not, true, false, ◌≡◌, refl, inl, inr, List, [], ◌∷◌, Option, none, some, Bytes, ◌==◌,
  nat_eq, Option-cases, if-both,
}
use bff_rtc_base.Signal.Request.{SignalRequest}
use bff_rtc_base.Signal.State.{Private, Requests, Effect, emit}
use bff_rtc_base.Signal.Links.{Links}
use bff_rtc_base.Signal.Send.{
  number_request, after_send, payload_of, send_on_primary, send_numbered, keep_unsent, send_payload,
  hand_over, primary_running, send_request, request_or_again, resend, flush_pending_reqs,
  push_pending, leave_request, send_leave,
}
use bff_rtc_base.Signal.Connection.Closing.{is_plain}

module _ (links : Links) {P : Private → Type 0}
    (says : (e : Effect) (d : Private) → is_plain e ≡ true → P d → P (emit e d))
    (keeps : (d : Private) (rs : Requests) → P d → P (record d { requests = rs })) where
  send_payload-Kept :
      (d : Private) (req : SignalRequest) (important : Bool) (payload : Option Bytes)
      → P d
      → P (send_payload links d req important payload).0
  unfolding send_payload send_on_primary after_send
  send_payload-Kept d req important none p = p
  send_payload-Kept d req important (some payload) p =
      let effect = Effect.sent d.race.primary_leg payload (not d.requests.use_json) in
      keeps (emit effect d) _ (says effect d refl p)

  hand_over-Kept :
      (d : Private) (req : SignalRequest) (important : Bool) (f : Option (List Effect → Bool))
      → P d
      → P (hand_over links d req important f).0
  unfolding hand_over after_send
  hand_over-Kept d req important none p = p
  hand_over-Kept d req important (some f) p =
      keeps (emit (Effect.handed req) d) _ (says (Effect.handed req) d refl p)

  pub send_request-Kept :
      (d : Private) (req : SignalRequest) (important : Bool)
      → P d
      → P (send_request links d req important).0
  unfolding send_request number_request send_numbered
  send_request-Kept d req important p =
      let (numbered, req1) = number_request d req in
      let q : P numbered =
        if-both {A = Private × SignalRequest} (λ x. P x.0) (req.id == 0) (keeps d _ p) p in
      if-both {A = Private × SignalRequest × Bool} (λ x. P x.0) (primary_running links numbered)
        (send_payload-Kept numbered req1 important (payload_of links numbered req1) q)
        (hand_over-Kept numbered req1 important links.send_request_fn q)

  push_pending-Kept : (d : Private) (packed : Option Bytes) → P d → P (push_pending d packed)
  unfolding push_pending
  push_pending-Kept d none p = p
  push_pending-Kept d (some packed) p = keeps d _ p

  pub request_or_again-Kept :
      (d : Private) (req : SignalRequest) → P d → P (request_or_again links d req).0
  unfolding request_or_again keep_unsent
  request_or_again-Kept d req p =
      let (next, req1, ok) = send_request links d req false in
      let q : P next = send_request-Kept d req false p in
      if-both {A = Private × Bool} (λ x. P x.0) ok q (push_pending-Kept next (links.pack req1) q)

  resend-Kept : (pending : List Bytes) (d : Private) → P d → P (resend links pending d)
  unfolding resend
  resend-Kept [] d p = p
  resend-Kept (bytes ∷ pending) d p = elim (Option-cases (links.unpack bytes)) [
    | inl e ↦ rw (e, resend) (resend-Kept pending d p)
    | inr (req, e) ↦ rw (e, resend) (resend-Kept pending _ (request_or_again-Kept d req p))
  ]

  pub flush_pending_reqs-Kept : (d : Private) → P d → P (flush_pending_reqs links d)
  unfolding flush_pending_reqs
  flush_pending_reqs-Kept d p = resend-Kept d.requests.pending_reqs _ (keeps d _ p)

  pub send_leave-Kept : (d : Private) → P d → P (send_leave links d).0
  unfolding send_leave
  send_leave-Kept d p = send_request-Kept d leave_request false p
