-- ===== src/Signal/NodeRtts/Once.antt =====
-- All channels are asked to join only once (Signal.cpp lines 1209 to 1226).
use bff_rtc_base.Base.{
  Bool, true, false, ◌≡◌, refl, List, [], ◌∷◌, Option, none, some, Bytes, if-true, if-both,
  if-cases, ◌==◌, nat_eq, int_eq, ℤ,
}
use bff_rtc_base.Signal.Config.{Config}
use bff_rtc_base.Signal.Request.{Message, SignalRequest}
use bff_rtc_base.Signal.State.{Private, NodeCache, Effect, emit}
use bff_rtc_base.Signal.Links.{Links}
use bff_rtc_base.Signal.Send.{
  number_request, send_request, send_numbered, send_payload, hand_over, payload_of, send_on_primary,
  primary_running, after_send,
}
use bff_rtc_base.Signal.Builders.{
  request, req_options, send_join, send_joins, join_all_channels_if_needed,
}

-- Sending a request keeps the round trips, and whether all channels were asked to join.
record IsKept (c : NodeCache) (asked : Bool) (d : Private) : Type 0 where
  cache : d.cache ≡ c
  join_all : d.requests.join_all_requested ≡ asked

module _ (links : Links) {c : NodeCache} {asked : Bool} where
  IsKept-send_payload :
      (d : Private) (req : SignalRequest) (important : Bool) (payload : Option Bytes)
      → IsKept c asked d
      → IsKept c asked (send_payload links d req important payload).0
  unfolding send_payload send_on_primary after_send emit
  IsKept-send_payload d req important none k = k
  IsKept-send_payload d req important (some payload) k = record {
    cache = k.cache;
    join_all = k.join_all;
  }

  IsKept-hand_over :
      (d : Private) (req : SignalRequest) (important : Bool) (f : Option (List Effect → Bool))
      → IsKept c asked d
      → IsKept c asked (hand_over links d req important f).0
  unfolding hand_over after_send emit
  IsKept-hand_over d req important none k = k
  IsKept-hand_over d req important (some f) k = record { cache = k.cache; join_all = k.join_all }

  IsKept-send_request :
      (d : Private) (req : SignalRequest) (important : Bool)
      → IsKept c asked d
      → IsKept c asked (send_request links d req important).0
  unfolding send_request number_request send_numbered
  IsKept-send_request d req important k =
      let (numbered, req1) = number_request d req in
      let q : IsKept c asked numbered =
        if-both {A = Private × SignalRequest} (λ x. IsKept c asked x.0) (req.id == 0)
          (record { cache = k.cache; join_all = k.join_all }) k in
      if-both {A = Private × SignalRequest × Bool} (λ x. IsKept c asked x.0)
        (primary_running links numbered)
        (IsKept-send_payload numbered req1 important (payload_of links numbered req1) q)
        (IsKept-hand_over numbered req1 important links.send_request_fn q)

module _ (links : Links) (config : Config) (encode : Bytes → Bytes) where
  IsKept-send_joins :
      (channels : List ℤ) {c : NodeCache} {asked : Bool} (d : Private)
      → IsKept c asked d
      → IsKept c asked (send_joins links config encode channels d)
  unfolding send_joins send_join
  IsKept-send_joins [] d k = k
  IsKept-send_joins (channel ∷ channels) d k =
      let asking = record d { requests = record d.requests { join_requested = true } } in
      let options = req_options links config encode asking d.requests.recreating in
      IsKept-send_joins channels (send_join links config encode channel d) (
        IsKept-send_request links asking (request channel [] (Message.join options)) true
          (record { cache = k.cache; join_all = k.join_all }))

  -- Once all channels were asked to join, asking again changes nothing, whatever was sent or not.
  pub join_all_channels_if_needed_twice :
      (d : Private)
      → let once = (join_all_channels_if_needed links config encode d).0 in
        join_all_channels_if_needed links config encode once ≡ (once, false)
  unfolding join_all_channels_if_needed
  join_all_channels_if_needed_twice d =
      let once = (join_all_channels_if_needed links config encode d).0 in
      let started = record d { requests = record d.requests { join_all_requested = true } } in
      let kept = IsKept-send_joins d.listeners started (record { cache = refl; join_all = refl }) in
      let asked : once.requests.join_all_requested ≡ true =
        if-cases {A = Private × Bool} (λ x. x.0.requests.join_all_requested ≡ true)
          d.requests.join_all_requested (λ e. e) (λ e. kept.join_all) in
      if-true {b = once.requests.join_all_requested} (once, false) _ asked
