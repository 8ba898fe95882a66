-- ===== src/Signal/Send/Flush.antt =====
-- The requests that are kept for later: none is lost, and their order stays.
use bff_rtc_base.Base.{
  true, false, not, ◌≡◌, ◌≢◌, refl, ap, ◌∙◌, List, [], ◌∷◌, ◌++◌, append_assoc, append-nil, none,
  some, Bytes, arith, ◌==◌, nat_eq, if-true, if-false, All,
}
use bff_rtc_base.Signal.Race.{Leg}
use bff_rtc_base.Signal.Request.{SignalRequest}
use bff_rtc_base.Signal.State.{Private, Effect, sent, emit}
use bff_rtc_base.Signal.Links.{Links}
use bff_rtc_base.Signal.Send.{
  number_request, send_request, send_numbered, keep_unsent, send_payload, hand_over, payload_of,
  send_on_primary, primary_running, push_pending, request_or_again, resend, flush_pending_reqs,
  after_send,
}

-- Bytes that the codec reads as a numbered request, and writes for it.
abbrev pub IsPacked : Links → Bytes → Type 0
IsPacked links bytes =
    (req : SignalRequest) × (links.unpack bytes ≡ some req)
    × (links.pack req ≡ some bytes)
    × (req.id ≢ 0)

abbrev with_pending : List Bytes → Private → Private
with_pending ps d = record d { requests = record d.requests { pending_reqs = ps } }

-- Each of them sent on a leg, the last one first.
abbrev pub sent_all : Leg → List Bytes → List Effect → List Effect
sent_all leg [] trace = trace
sent_all leg (bytes ∷ pending) trace = sent_all leg pending (sent leg bytes true ∷ trace)

number_request-numbered :
    (d : Private) (req : SignalRequest) → req.id ≢ 0 → number_request d req ≡ (d, req)
unfolding number_request
number_request-numbered d req h = if-false {b = req.id == 0} _ _ (ground arith)

module _ (links : Links) where
  abbrev pub IsOffline : Type 0
  IsOffline =
      ((leg : Leg) (trace : List Effect) → links.is_running leg trace ≡ false)
      × (links.send_request_fn ≡ none)

  request_or_again-numbered :
      (d : Private) (req : SignalRequest)
      → req.id ≢ 0
      → request_or_again links d req ≡ keep_unsent links (send_numbered links d req false)
  unfolding request_or_again send_request
  request_or_again-numbered d req h =
      ap (λ x. keep_unsent links (send_numbered links x.0 x.1 false))
        (number_request-numbered d req h)

  send_numbered-offline :
      (d : Private) (req : SignalRequest)
      → IsOffline
      → send_numbered links d req false ≡ (d, req, false)
  unfolding send_numbered primary_running
  send_numbered-offline d req (stopped, alone) =
      if-false _ _ (stopped d.race.primary_leg d.trace) ∙ rw (alone, hand_over) refl

  request_or_again-offline :
      (d : Private) (req : SignalRequest)
      → IsOffline
      → req.id ≢ 0
      → request_or_again links d req ≡ (push_pending d (links.pack req), false)
  unfolding keep_unsent
  request_or_again-offline d req off h =
      request_or_again-numbered d req h ∙ ap (keep_unsent links) (send_numbered-offline d req off)

  resend-offline :
      (pending : List Bytes) (d : Private)
      → IsOffline
      → All (IsPacked links) pending
      → resend links pending d ≡ with_pending (d.requests.pending_reqs ++ pending) d
  unfolding resend push_pending
  resend-offline [] d off h = rw (append-nil d.requests.pending_reqs) refl
  resend-offline (bytes ∷ pending) d off ((req, unpacks, packs, id), h) =
      rw (unpacks, resend, request_or_again-offline d req off id, packs, push_pending)
        (resend-offline pending _ off h
          ∙ rw (append_assoc d.requests.pending_reqs (bytes ∷ []) pending) refl)

  -- While no transport runs and no other way to send is set, sending the kept requests again, each
  -- the packed bytes of a numbered request, changes nothing: all of them are kept, in their order.
  pub flush_pending_reqs-offline :
      (d : Private)
      → IsOffline
      → All (IsPacked links) d.requests.pending_reqs
      → flush_pending_reqs links d ≡ d
  unfolding flush_pending_reqs
  flush_pending_reqs-offline d off h =
      resend-offline d.requests.pending_reqs (with_pending [] d) off h

  abbrev pub IsOnline : Type 0
  IsOnline =
      ((leg : Leg) (trace : List Effect) → links.is_running leg trace ≡ true)
      × ((leg : Leg) (trace : List Effect) → links.sends leg trace ≡ true)

  send_payload-online :
      (d : Private) (req : SignalRequest) (bytes : Bytes)
      → IsOnline
      → d.requests.use_json ≡ false
      → send_payload links d req false (some bytes)
        ≡ (after_send (emit (sent d.race.primary_leg bytes true) d) req false true, req, true)
  unfolding send_payload send_on_primary
  send_payload-online d req bytes (runs, sends) json =
      let next = emit (sent d.race.primary_leg bytes (not d.requests.use_json)) d in
      ap (λ ok. (after_send next req false ok, req, ok)) (sends d.race.primary_leg next.trace)
      ∙ ap
          (λ json. (
            after_send (emit (sent d.race.primary_leg bytes (not json)) d) req false true,
            req,
            true,
          ))
          json

  send_numbered-online :
      (d : Private) (req : SignalRequest) (bytes : Bytes)
      → IsOnline
      → d.requests.use_json ≡ false
      → links.pack req ≡ some bytes
      → send_numbered links d req false
        ≡ (after_send (emit (sent d.race.primary_leg bytes true) d) req false true, req, true)
  unfolding send_numbered primary_running payload_of
  send_numbered-online d req bytes on json packs =
      if-true _ _ (on.0 d.race.primary_leg d.trace)
      ∙ ap (send_payload links d req false)
          (if-false (links.to_json req) (links.pack req) json ∙ packs)
      ∙ send_payload-online d req bytes on json

  request_or_again-online :
      (d : Private) (req : SignalRequest) (bytes : Bytes)
      → IsOnline
      → d.requests.use_json ≡ false
      → req.id ≢ 0
      → links.pack req ≡ some bytes
      → request_or_again links d req
        ≡ (after_send (emit (sent d.race.primary_leg bytes true) d) req false true, true)
  unfolding keep_unsent
  request_or_again-online d req bytes on json h packs =
      request_or_again-numbered d req h
      ∙ ap (keep_unsent links) (send_numbered-online d req bytes on json packs)

  resend-online :
      (pending : List Bytes) (d : Private)
      → IsOnline
      → d.requests.use_json ≡ false
      → All (IsPacked links) pending
      → ((resend links pending d).requests.pending_reqs ≡ d.requests.pending_reqs)
        × ((resend links pending d).trace ≡ sent_all d.race.primary_leg pending d.trace)
  unfolding resend after_send emit
  resend-online [] d on json h = (refl, refl)
  resend-online (bytes ∷ pending) d on json ((req, unpacks, packs, id), h) =
      rw (unpacks, resend, request_or_again-online d req bytes on json id packs)
        (resend-online pending _ on json h)

  -- Where the transport runs and takes all that it is given, as bytes and not as JSON, the kept
  -- requests, each the packed bytes of a numbered request, are sent on the session's transport,
  -- each once and in their order, and none is kept any longer.
  pub flush_pending_reqs-online :
      (d : Private)
      → IsOnline
      → d.requests.use_json ≡ false
      → All (IsPacked links) d.requests.pending_reqs
      → ((flush_pending_reqs links d).requests.pending_reqs ≡ [])
        × ((flush_pending_reqs links d).trace
            ≡ sent_all d.race.primary_leg d.requests.pending_reqs d.trace)
  unfolding flush_pending_reqs
  flush_pending_reqs-online d on json h =
      resend-online d.requests.pending_reqs (with_pending [] d) on json h
