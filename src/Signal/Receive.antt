-- ===== src/Signal/Receive.antt =====
-- What the server sends (Signal.cpp lines 586 to 611, 735 to 737 and 1441 to 1682). `during` are
-- the callbacks that come in while the transports are joined.
pub mod Kept
pub mod Quiet
pub mod Answers
pub mod Offers
use bff_rtc_base.Base.{
  ◌&&◌, not, ℕ, ◌+◌, ◌-◌, ◌%◌, ◌^◌, Bool, true, false, ◌||◌, not, List, [], ◌∷◌, Option, none, some,
  Bytes, ℤ, pos, if◌then◌else◌, is_empty, ◌==◌, nat_eq, int_eq, bytes_eq, contains, set_erase,
  insert_or_assign, to_i32,
}
use bff_rtc_base.Signal.Config.{Config, RtcError}
use bff_rtc_base.Signal.Race.{Leg, is_leg}
use bff_rtc_base.Signal.State.{
  Private, Notice, Effect, IceCandidate, emit, notified, enumerate_listeners,
}
use bff_rtc_base.Signal.Links.{Links, CurlCodes, Callback}
use bff_rtc_base.Signal.Send.{flush_pending_reqs}
use bff_rtc_base.Signal.Connection.{set_life, close_all_async, is_token_code}
use bff_rtc_base.Signal.Connect.{close_in_handler, answers_leave, maybe_close_after_response}
use bff_rtc_base.Signal.Response.{
  Response, Reply, NodeList, Codec, parse_ice_candidate_json, resolve_desc_sdp,
}

-- `listenerForChannel`, and a call of the listener where there is one.
abbrev pub tell : ℤ → Notice → Private → Private
tell channel n d = if contains channel d.listeners then emit (notified channel n) d else d

unfoldable pub tell_message : ℤ → (Bytes → Notice) → Option Bytes → Private → Private
unfolding emit
tell_message channel n none d = d
tell_message channel n (some message) d = tell channel (n message) d

unfoldable pub take_joined : ℤ → Option Bytes → Private → Private
unfolding tell_message
take_joined channel joined d0 =
    let rs = d0.requests in
    let auto = if rs.join_requested then rs.auto_media_join else false in
    let d = record d0 { requests = record rs { auto_media_join = auto } } in
    tell_message channel (λ j. Notice.on_joined j auto) joined d

-- An offer that was the last one already is ignored.
unfoldable pub take_offer : ℤ → (from sdp : Bytes) → Private → Private
unfolding emit
take_offer channel from sdp d =
    if is_empty sdp
    then d
    else if sdp == d.last_offer
    then d
    else record (tell channel (Notice.on_offer from sdp) d) { last_offer = sdp }

unfoldable pub take_answer : ℤ → (from sdp : Bytes) → Private → Private
unfolding emit
take_answer channel from sdp d =
    if is_empty sdp then d else tell channel (Notice.on_answer from sdp) d

unfoldable pub take_candidate : ℤ → (from : Bytes) → Option IceCandidate → Private → Private
unfolding emit
take_candidate channel from none d = d
take_candidate channel from (some c) d = tell channel (Notice.on_candidate from c) d

abbrev pub present : List (Option Bytes) → List Bytes
present [] = []
present (none ∷ items) = present items
present (some item ∷ items) = item ∷ present items

-- The selector gets the client's address, empty where none is known.
unfoldable pub take_node_list : Option NodeList → Private → Private
unfolding emit
take_node_list none d = d
take_node_list (some nodes) d0 =
    let client_ip = if is_empty nodes.client_ip then d0.client_ip else nodes.client_ip in
    let d = record d0 { client_ip = client_ip } in
    emit (Effect.nodes_listed (present nodes.ips) (nodes.stun_port % 2 ^ 16) client_ip) d

-- `rtts` has the time of a ping's way, as 32 bits.
unfoldable pub take_pong : (now_ms32 : ℕ) → ℤ → Option ℕ → Private → Private
unfolding insert_or_assign
take_pong now_ms32 channel none d = d
take_pong now_ms32 channel (some timestamp) d =
    let rtt = (now_ms32 + 2 ^ 32 - timestamp) % 2 ^ 32 in
    record d { cache = record d.cache { rtts = insert_or_assign channel rtt d.cache.rtts } }

unfoldable pub tell_streams : ℤ → List Bytes → Private → Private
unfolding emit
tell_streams channel [] d = d
tell_streams channel (track ∷ tracks) d =
    tell_streams channel tracks (tell channel (Notice.on_add_stream track) d)

unfoldable pub take_tracks : ℤ → Option (Bytes × List (Option Bytes)) → Private → Private
unfolding tell_streams emit
take_tracks channel none d = d
take_tracks channel (some (message, tracks)) d =
    tell_streams channel (present tracks) (tell channel (Notice.on_add_track message) d)

-- Whether the handler goes on behind the switch, and whether it resets the count of reconnections.
pub data Verdict : Type 0 where
  goes_on : (reset_reconn : Bool) → Verdict
  stops : Verdict

abbrev pub set_token : Bytes → Private → Private
set_token token d = record d { token = token; auth_token = token }

abbrev pub last_code_set : ℤ → Private → Private
last_code_set code d = set_life d (record d.life { last_code = code })

abbrev pub forget_request : ℕ → Private → Private
forget_request id d = record d {
  requests = record d.requests { important_reqs = set_erase id d.requests.important_reqs };
}

abbrev pub reset_ping : (now : ℕ) → Private → Private
reset_ping now d = set_life d (record d.life { last_recv_ms = some now })

-- `d->rtts` aside, the handler's arguments: the callbacks while it joins, and the two clocks.
pub record Moment : Type 0 where
  pub during : List Callback
  pub steady_ms : ℕ
  pub ms32 : ℕ

module _ (links : Links) (config : Config) (curl : CurlCodes) (codec : Codec) where
  -- The connection is closed and the channel's listener told, unless closing does not return.
  unfoldable pub reject : List Callback → ℤ → RtcError → Private → Private
  unfolding close_in_handler close_all_async emit
  reject during channel error d =
      if d.life.disconnect_closing
      then close_in_handler links config curl during d
      else tell channel (Notice.on_error error) (close_all_async d)

  unfoldable pub take_code : List Callback → (id : ℕ) → ℤ → ℤ → Private → Private × Verdict
  unfolding reject
  take_code during id channel code d0 =
      let d = last_code_set code d0 in
      if code == pos 200
      then (d, Verdict.goes_on true)
      else if is_token_code code
      then (reject during channel RtcError.token d, Verdict.stops)
      else if contains id d.requests.important_reqs
      then (reject during channel RtcError.signal_failed (forget_request id d), Verdict.stops)
      else (d, Verdict.goes_on false)

  -- The switch.
  unfoldable pub take_reply : Moment → Response → ℤ → Reply → Private → Private × Verdict
  unfolding take_joined tell_message take_offer take_answer take_candidate take_node_list take_pong
      take_tracks take_code flush_pending_reqs enumerate_listeners emit
  take_reply m r channel (Reply.joined joined) d =
      (flush_pending_reqs links (take_joined channel joined d), Verdict.goes_on true)
  take_reply m r channel (Reply.config config1) d =
      (tell_message channel Notice.on_config config1 d, Verdict.goes_on true)
  take_reply m r channel (Reply.subscribed audio video) d =
      (tell channel (Notice.on_subscribe audio video) d, Verdict.goes_on true)
  take_reply m r channel (Reply.addr ip) d = (
    enumerate_listeners (Notice.on_changed_address ip) (record d { client_ip = ip }),
    Verdict.goes_on true,
  )
  take_reply m r channel (Reply.offer desc) d =
      (take_offer channel r.from (resolve_desc_sdp codec desc) d, Verdict.goes_on true)
  take_reply m r channel (Reply.answer desc) d =
      (take_answer channel r.from (resolve_desc_sdp codec desc) d, Verdict.goes_on true)
  take_reply m r channel (Reply.candidate none) d = (d, Verdict.goes_on true)
  take_reply m r channel (Reply.candidate (some text)) d =
      (take_candidate channel r.from (parse_ice_candidate_json codec text) d, Verdict.goes_on true)
  take_reply m r channel (Reply.node_list nodes) d = (take_node_list nodes d, Verdict.goes_on true)
  take_reply m r channel (Reply.pong timestamp) d =
      (take_pong m.ms32 channel timestamp d, Verdict.goes_on true)
  take_reply m r channel (Reply.add_track tracks) d =
      (take_tracks channel tracks d, Verdict.goes_on true)
  take_reply m r channel (Reply.remove_track message) d =
      (tell_message channel Notice.on_remove_tracks message d, Verdict.goes_on true)
  take_reply m r channel (Reply.leaved message) d =
      (tell_message channel Notice.on_leaved message d, Verdict.goes_on true)
  take_reply m r channel (Reply.peer_state state) d =
      (tell channel (Notice.on_changed_peer_state r.from state) d, Verdict.goes_on true)
  take_reply m r channel (Reply.stats text) d = (d, Verdict.goes_on true)
  take_reply m r channel (Reply.response none) d = (d, Verdict.goes_on true)
  take_reply m r channel (Reply.response (some code)) d = take_code m.during r.id channel code d
  take_reply m r channel (Reply.broadcast message) d = (d, Verdict.goes_on true)
  take_reply m r channel (Reply.negotiation on) d =
      (tell channel (Notice.on_negotiation r.from on) d, Verdict.goes_on true)
  take_reply m r channel (Reply.token token) d = (set_token token d, Verdict.goes_on true)
  take_reply m r channel (Reply.compression none) d = (d, Verdict.goes_on true)
  take_reply m r channel (Reply.compression (some dict)) d =
      (emit (Effect.dict_set dict) d, Verdict.goes_on true)
  take_reply m r channel Reply.not_set d = (d, Verdict.goes_on true)

  -- Behind the switch.
  unfoldable pub after_reply : List Callback → (id : ℕ) → Private × Verdict → Private
  unfolding maybe_close_after_response
  after_reply during id (d, Verdict.stops) = d
  after_reply during id (d, Verdict.goes_on reset_reconn) =
      let forgotten = forget_request id d in
      let settled = maybe_close_after_response links config curl during id forgotten in
      if reset_reconn && not (answers_leave links config curl id forgotten)
      then set_life settled (record settled.life { reconnect_count = 0 })
      else settled

  unfoldable pub handle_response : Moment → Response → Private → Private
  unfolding take_reply after_reply
  handle_response m r d =
      after_reply m.during r.id
        (take_reply m r (to_i32 r.channel) r.reply (reset_ping m.steady_ms d))

  abbrev handle_unpacked : Moment → Option Response → Private → Private
  handle_unpacked m none d = d
  handle_unpacked m (some r) d = if d.life.owner then handle_response m r d else d

  unfoldable pub on_transport_recv :
      Moment → Leg → (data_ : Bytes) → (binary : Bool) → Private → Private
  unfolding handle_response
  on_transport_recv m leg data_ binary d =
      if not (is_leg d.race.primary_leg leg) || not d.race.session_open
      then d
      else handle_unpacked m
          (if binary then codec.unpack_response data_ else codec.response_of_json data_) d
