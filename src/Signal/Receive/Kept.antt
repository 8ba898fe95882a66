-- ===== src/Signal/Receive/Kept.antt =====
-- What the switch of the handler of responses keeps: a predicate on the course of the connection and
-- on the trace, in every case but that of a response code.
use bff_rtc_base.Base.{
  true, ◌≡◌, refl, List, [], ◌∷◌, Option, none, some, Bytes, ℤ, if-both, is_empty, contains, ◌==◌,
  bytes_eq, int_eq, ℕ,
}
use bff_rtc_base.Signal.Config.{Config}
use bff_rtc_base.Signal.State.{
  Private, Notice, Effect, IceCandidate, emit, notices, enumerate_listeners,
}
use bff_rtc_base.Signal.Links.{Links, CurlCodes}
use bff_rtc_base.Signal.Send.Kept.{flush_pending_reqs-Kept}
use bff_rtc_base.Signal.Connection.Closing.{is_plain}
use bff_rtc_base.Signal.Response.{
  Response, Reply, NodeList, Codec, parse_ice_candidate_json, resolve_desc_sdp,
}
use bff_rtc_base.Signal.Receive.{
  tell, tell_message, take_joined, take_offer, take_answer, take_candidate, present, take_node_list,
  take_pong, tell_streams, take_tracks, Verdict, Moment, take_code, take_reply,
}

pub record KeptReply (P : Private → Type 0) : Type 0 where
  pub says : (e : Effect) (d : Private) → is_plain e ≡ true → P d → P (emit e d)
  pub frame : (d e : Private) → e.life ≡ d.life → e.trace ≡ d.trace → P d → P e

module _ {P : Private → Type 0} (k : KeptReply P) where
  pub tell-Kept : (channel : ℤ) (n : Notice) (d : Private) → P d → P (tell channel n d)
  tell-Kept channel n d p =
      if-both P (contains channel d.listeners) (k.says (Effect.notified channel n) d refl p) p

  tell_message-Kept :
      (channel : ℤ) (n : Bytes → Notice) (message : Option Bytes) (d : Private)
      → P d
      → P (tell_message channel n message d)
  unfolding tell_message
  tell_message-Kept channel n none d p = p
  tell_message-Kept channel n (some message) d p = tell-Kept channel (n message) d p

  take_joined-Kept :
      (channel : ℤ) (joined : Option Bytes) (d : Private) → P d → P (take_joined channel joined d)
  unfolding take_joined
  take_joined-Kept channel joined d p =
      tell_message-Kept channel _ joined _ (k.frame d _ refl refl p)

  take_offer-Kept :
      (channel : ℤ) (from sdp : Bytes) (d : Private) → P d → P (take_offer channel from sdp d)
  unfolding take_offer
  take_offer-Kept channel from sdp d p = if-both P (is_empty sdp) p (
      if-both P (sdp == d.last_offer) p (
        k.frame (tell channel (Notice.on_offer from sdp) d) _ refl refl
          (tell-Kept channel (Notice.on_offer from sdp) d p)))

  take_answer-Kept :
      (channel : ℤ) (from sdp : Bytes) (d : Private) → P d → P (take_answer channel from sdp d)
  unfolding take_answer
  take_answer-Kept channel from sdp d p =
      if-both P (is_empty sdp) p (tell-Kept channel (Notice.on_answer from sdp) d p)

  take_candidate-Kept :
      (channel : ℤ) (from : Bytes) (c : Option IceCandidate) (d : Private)
      → P d
      → P (take_candidate channel from c d)
  unfolding take_candidate
  take_candidate-Kept channel from none d p = p
  take_candidate-Kept channel from (some c) d p = tell-Kept channel (Notice.on_candidate from c) d p

  take_node_list-Kept : (nodes : Option NodeList) (d : Private) → P d → P (take_node_list nodes d)
  unfolding take_node_list
  take_node_list-Kept none d p = p
  take_node_list-Kept (some nodes) d p = k.says _ _ refl (k.frame d _ refl refl p)

  take_pong-Kept :
      (ms : ℕ) (channel : ℤ) (timestamp : Option ℕ) (d : Private)
      → P d
      → P (take_pong ms channel timestamp d)
  unfolding take_pong
  take_pong-Kept ms channel none d p = p
  take_pong-Kept ms channel (some timestamp) d p = k.frame d _ refl refl p

  tell_streams-Kept :
      (channel : ℤ) (tracks : List Bytes) (d : Private) → P d → P (tell_streams channel tracks d)
  unfolding tell_streams
  tell_streams-Kept channel [] d p = p
  tell_streams-Kept channel (track ∷ tracks) d p =
      tell_streams-Kept channel tracks _ (tell-Kept channel (Notice.on_add_stream track) d p)

  take_tracks-Kept :
      (channel : ℤ) (tracks : Option (Bytes × List (Option Bytes))) (d : Private)
      → P d
      → P (take_tracks channel tracks d)
  unfolding take_tracks
  take_tracks-Kept channel none d p = p
  take_tracks-Kept channel (some (message, tracks)) d p =
      tell_streams-Kept channel (present tracks) _
        (tell-Kept channel (Notice.on_add_track message) d p)

  notices-Kept :
      (n : Notice) (channels : List ℤ) (d : Private) (trace : List Effect)
      → P (record d { trace = trace })
      → P (record d { trace = notices n channels trace })
  unfolding notices emit
  notices-Kept n [] d trace p = p
  notices-Kept n (c ∷ channels) d trace p =
      notices-Kept n channels d (Effect.notified c n ∷ trace)
        (k.says (Effect.notified c n) (record d { trace = trace }) refl p)

  enumerate-Kept : (n : Notice) (d : Private) → P d → P (enumerate_listeners n d)
  unfolding enumerate_listeners
  enumerate-Kept n d p = notices-Kept n d.listeners d d.trace p

  module _ (links : Links) (config : Config) (curl : CurlCodes) (codec : Codec)
      (Q : Private × Verdict → Type 0)
      (goes : (d : Private) → P d → Q (d, Verdict.goes_on true)) where
    pub take_reply-Kept :
        (m : Moment) (r : Response) (channel : ℤ) (reply : Reply) (d : Private)
        → ((code : ℤ) → Q (take_code links config curl codec m.during r.id channel code d))
        → P d
        → Q (take_reply links config curl codec m r channel reply d)
    unfolding take_reply
    take_reply-Kept m r channel (Reply.joined joined) d code p = goes _ (
        flush_pending_reqs-Kept links k.says (λ d rs. k.frame d _ refl refl) _
          (take_joined-Kept channel joined d p))
    take_reply-Kept m r channel (Reply.config message) d code p =
        goes _ (tell_message-Kept channel _ message d p)
    take_reply-Kept m r channel (Reply.subscribed audio video) d code p =
        goes _ (tell-Kept channel _ d p)
    take_reply-Kept m r channel (Reply.addr ip) d code p =
        goes _ (enumerate-Kept _ _ (k.frame d _ refl refl p))
    take_reply-Kept m r channel (Reply.offer desc) d code p =
        goes _ (take_offer-Kept channel r.from (resolve_desc_sdp codec desc) d p)
    take_reply-Kept m r channel (Reply.answer desc) d code p =
        goes _ (take_answer-Kept channel r.from (resolve_desc_sdp codec desc) d p)
    take_reply-Kept m r channel (Reply.candidate none) d code p = goes d p
    take_reply-Kept m r channel (Reply.candidate (some text)) d code p =
        goes _ (take_candidate-Kept channel r.from (parse_ice_candidate_json codec text) d p)
    take_reply-Kept m r channel (Reply.node_list nodes) d code p =
        goes _ (take_node_list-Kept nodes d p)
    take_reply-Kept m r channel (Reply.pong timestamp) d code p =
        goes _ (take_pong-Kept m.ms32 channel timestamp d p)
    take_reply-Kept m r channel (Reply.add_track tracks) d code p =
        goes _ (take_tracks-Kept channel tracks d p)
    take_reply-Kept m r channel (Reply.remove_track message) d code p =
        goes _ (tell_message-Kept channel _ message d p)
    take_reply-Kept m r channel (Reply.leaved message) d code p =
        goes _ (tell_message-Kept channel _ message d p)
    take_reply-Kept m r channel (Reply.peer_state state) d code p = goes _ (tell-Kept channel _ d p)
    take_reply-Kept m r channel (Reply.stats text) d code p = goes d p
    take_reply-Kept m r channel (Reply.response none) d code p = goes d p
    take_reply-Kept m r channel (Reply.response (some c)) d code p = code c
    take_reply-Kept m r channel (Reply.broadcast message) d code p = goes d p
    take_reply-Kept m r channel (Reply.negotiation on) d code p = goes _ (tell-Kept channel _ d p)
    take_reply-Kept m r channel (Reply.token token) d code p = goes _ (k.frame d _ refl refl p)
    take_reply-Kept m r channel (Reply.compression none) d code p = goes d p
    take_reply-Kept m r channel (Reply.compression (some dict)) d code p =
        goes _ (k.says (Effect.dict_set dict) d refl p)
    take_reply-Kept m r channel Reply.not_set d code p = goes d p
