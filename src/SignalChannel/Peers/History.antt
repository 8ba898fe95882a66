-- ===== src/SignalChannel/Peers/History.antt =====
-- The sets of a channel's peers (SignalChannel.cpp, lines 79 to 142) over its life.
use bff_rtc_base.Base.{
  ◌≡◌, refl, sym, ap, ◌∙◌, Bool, true, false, ◌||◌, List, [], ◌∷◌, Option, none, some, Bytes,
  if◌then◌else◌, if-both, ◌==◌, bytes_eq, contains, contains-set_insert, contains-set_erase, arith,
}
use bff_rtc_base.SignalChannel.{
  PeerInfo, Channel, add_peer, take_peer, take_named, take_peers, peer_ids, remove_peer, set_joined,
  apply_joined_peers, JoinedUpdate,
}
use bff_rtc_base.SignalChannel.Peers.{Same, take_peer-Same, take_peers-peers}

-- What happens to a channel: a list of peers that joined, a peer that is removed, or `setJoined`.
pub data ChannelStep : Type 0 where
  joins :
      (selected joins_all : Bool)
      → List (Option PeerInfo)
      → (user_id : Bytes) → (auto : Bool) → ChannelStep
  leaves : (id : Bytes) → ChannelStep
  marks : (joined : Bool) → ChannelStep

unfoldable pub run_channel : List ChannelStep → Channel → Channel
unfolding apply_joined_peers remove_peer
run_channel [] s = s
run_channel (ChannelStep.joins selected joins_all peers user_id auto ∷ steps) s =
    run_channel steps (apply_joined_peers selected joins_all peers user_id auto s).0
run_channel (ChannelStep.leaves id ∷ steps) s = run_channel steps (remove_peer id s)
run_channel (ChannelStep.marks joined ∷ steps) s = run_channel steps (set_joined joined s)

-- The abstract view: whether `id` is a peer, from what it was and what was said of it since.
unfoldable pub is_peer : (id : Bytes) → List ChannelStep → Bool → Bool
is_peer id [] was = was
is_peer id (ChannelStep.joins selected joins_all peers user_id auto ∷ steps) was =
    is_peer id steps (contains id (peer_ids peers) || was)
is_peer id (ChannelStep.leaves other ∷ steps) was =
    is_peer id steps (if other == id then false else was)
is_peer id (ChannelStep.marks joined ∷ steps) was = is_peer id steps was

apply_joined_peers-Same :
    (selected joins_all : Bool) (peers : List (Option PeerInfo)) (user_id : Bytes) (auto : Bool)
    (s : Channel)
    → Same
        (take_peers user_id auto peers s)
        (apply_joined_peers selected joins_all peers user_id auto s).0
unfolding apply_joined_peers
apply_joined_peers-Same selected joins_all peers user_id auto s =
    let taken = take_peers user_id auto peers s in
    if-both (λ (r : Channel × JoinedUpdate). Same taken r.0) _
      (record { peers = refl; joined_peers = refl }) (record { peers = refl; joined_peers = refl })

-- Of a channel's peers every name is there that a list named and that was not removed since, whatever
-- else the lists say, and no other.
pub run_channel-peers :
    (id : Bytes) (steps : List ChannelStep) (s : Channel)
    → contains id (run_channel steps s).peers ≡ is_peer id steps (contains id s.peers)
unfolding run_channel is_peer remove_peer
run_channel-peers id [] s = refl
run_channel-peers id (ChannelStep.joins selected joins_all peers user_id auto ∷ steps) s =
    let next = (apply_joined_peers selected joins_all peers user_id auto s).0 in
    run_channel-peers id steps next
    ∙ ap (is_peer id steps) (
        ap (contains id) (apply_joined_peers-Same selected joins_all peers user_id auto s).peers
        ∙ take_peers-peers user_id auto peers s id)
run_channel-peers id (ChannelStep.leaves other ∷ steps) s =
    run_channel-peers id steps (remove_peer other s)
    ∙ ap (is_peer id steps) (contains-set_erase other id s.peers)
run_channel-peers id (ChannelStep.marks joined ∷ steps) s =
    run_channel-peers id steps (set_joined joined s)

-- Who takes part in the media is a peer.
pub record IsPart (s : Channel) : Type 0 where
  pub part : (id : Bytes) → contains id s.joined_peers ≡ true → contains id s.peers ≡ true

Same-IsPart : (s t : Channel) → Same s t → IsPart s → IsPart t
Same-IsPart s t e p = record {
  part = λ id h. ap (contains id) e.peers ∙ p.part id (sym (ap (contains id) e.joined_peers) ∙ h);
}

add_peer-IsPart :
    (name : Bytes) (peer : PeerInfo) (s : Channel) → IsPart s → IsPart (add_peer name peer s)
add_peer-IsPart name peer s p = record {
  part = λ id h. ground (
    arith,
    contains-set_insert name id s.peers,
    contains-set_insert name id s.joined_peers,
    p.part id,
  );
}

take_named-IsPart :
    (user_id : Bytes) (auto : Bool) (name : Option Bytes) (peer : PeerInfo) (s : Channel)
    → IsPart s
    → IsPart (take_named user_id auto name peer s)
take_named-IsPart user_id auto none peer s p = p
take_named-IsPart user_id auto (some name) peer s p =
    Same-IsPart (add_peer name peer s) (take_peer user_id auto name peer s)
      (take_peer-Same user_id auto name peer s) (add_peer-IsPart name peer s p)

take_peers-IsPart :
    (user_id : Bytes) (auto : Bool) (peers : List (Option PeerInfo)) (s : Channel)
    → IsPart s
    → IsPart (take_peers user_id auto peers s)
unfolding take_peers
take_peers-IsPart user_id auto [] s p = p
take_peers-IsPart user_id auto (none ∷ peers) s p = take_peers-IsPart user_id auto peers s p
take_peers-IsPart user_id auto (some peer ∷ peers) s p =
    take_peers-IsPart user_id auto peers (take_named user_id auto peer.id peer s)
      (take_named-IsPart user_id auto peer.id peer s p)

remove_peer-IsPart : (name : Bytes) (s : Channel) → IsPart s → IsPart (remove_peer name s)
unfolding remove_peer
remove_peer-IsPart name s p = record {
  part = λ id h. ground (
    arith,
    contains-set_erase name id s.peers,
    contains-set_erase name id s.joined_peers,
    p.part id,
  );
}

-- Whatever lists come in and peers are removed, the peers that take part in the media are peers of the
-- channel, if they were at the start.
pub run_channel-IsPart :
    (steps : List ChannelStep) (s : Channel) → IsPart s → IsPart (run_channel steps s)
unfolding run_channel
run_channel-IsPart [] s p = p
run_channel-IsPart (ChannelStep.joins selected joins_all peers user_id auto ∷ steps) s p =
    run_channel-IsPart steps (apply_joined_peers selected joins_all peers user_id auto s).0 (
      Same-IsPart (take_peers user_id auto peers s)
        (apply_joined_peers selected joins_all peers user_id auto s).0
        (apply_joined_peers-Same selected joins_all peers user_id auto s)
        (take_peers-IsPart user_id auto peers s p))
run_channel-IsPart (ChannelStep.leaves id ∷ steps) s p =
    run_channel-IsPart steps (remove_peer id s) (remove_peer-IsPart id s p)
run_channel-IsPart (ChannelStep.marks joined ∷ steps) s p =
    run_channel-IsPart steps (set_joined joined s) (record { part = p.part })
