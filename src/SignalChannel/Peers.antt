-- ===== src/SignalChannel/Peers.antt =====
-- What a list of peers makes of a channel's sets (SignalChannel.cpp, lines 84 to 128).
pub mod History
use bff_rtc_base.Base.{
  ◌≡◌, refl, sym, ap, ◌∙◌, Bool, true, false, not, ◌||◌, ◌&&◌, List, [], ◌∷◌, Option, none, some,
  Bytes, is_empty, if◌then◌else◌, if-both, ◌==◌, bytes_eq, contains, set_insert, set_erase,
  contains-set_insert, contains-set_erase, arith,
}
use mathlib.Core.Path.{subst}
use bff_rtc_base.SignalChannel.{
  PeerInfo, Channel, add_peer, apply_own, take_codecs, help_legacy, apply_other, apply_peer,
  take_peer, take_named, take_peers, cons_named, peer_ids, remove_peer, apply_joined_peers,
  JoinedUpdate,
}

pub record Same (s t : Channel) : Type 0 where
  pub peers : t.peers ≡ s.peers
  pub joined_peers : t.joined_peers ≡ s.joined_peers

pub same : (s : Channel) → Same s s
same s = record { peers = refl; joined_peers = refl }

Same-trans : (s t u : Channel) → Same s t → Same t u → Same s u
Same-trans s t u a b = record {
  peers = b.peers ∙ a.peers;
  joined_peers = b.joined_peers ∙ a.joined_peers;
}

apply_own-Same : (peer : PeerInfo) (s : Channel) → Same s (apply_own peer s)
apply_own-Same peer s =
    if-both (Same s) (is_empty peer.node_rtts) (same s)
      (record { peers = refl; joined_peers = refl })

take_codecs-Same : (peer : PeerInfo) (s : Channel) → Same s (take_codecs peer s)
take_codecs-Same peer s =
    if-both (Same s) (is_empty peer.codecs) (same s) (record { peers = refl; joined_peers = refl })

help_legacy-Same :
    (is_new : Bool) (peer : PeerInfo) (s : Channel) → Same s (help_legacy is_new peer s)
help_legacy-Same is_new peer s =
    if-both (Same s) _ (record { peers = refl; joined_peers = refl }) (same s)

apply_other-Same : (peer : PeerInfo) (s : Channel) → Same s (apply_other peer s)
apply_other-Same peer s =
    if-both (Same s) (is_empty peer.node_rtts) (same s)
      (record { peers = refl; joined_peers = refl })

apply_peer-Same :
    (is_self is_new auto : Bool) (peer : PeerInfo) (s : Channel)
    → Same s (apply_peer is_self is_new auto peer s)
unfolding apply_peer
apply_peer-Same true is_new auto peer s = apply_own-Same peer s
apply_peer-Same false is_new true peer s = same s
apply_peer-Same false is_new false peer s =
    let coded = take_codecs peer s in
    let helped = help_legacy is_new peer coded in
    Same-trans s coded (apply_other peer helped) (take_codecs-Same peer s) (
      Same-trans coded helped (apply_other peer helped) (help_legacy-Same is_new peer coded)
        (apply_other-Same peer helped))

pub take_peer-Same :
    (user_id : Bytes) (auto : Bool) (id : Bytes) (peer : PeerInfo) (s : Channel)
    → Same (add_peer id peer s) (take_peer user_id auto id peer s)
unfolding take_peer
take_peer-Same user_id auto id peer s =
    let applied =
      apply_peer-Same (id == user_id) (not (contains id s.peers)) auto peer (add_peer id peer s) in
    record { peers = applied.peers; joined_peers = applied.joined_peers }

take_named-peers :
    (user_id : Bytes) (auto : Bool) (name : Option Bytes) (peer : PeerInfo) (s : Channel)
    (id : Bytes)
    → contains id (take_named user_id auto name peer s).peers
      ≡ (contains id (cons_named name []) || contains id s.peers)
unfolding contains
take_named-peers user_id auto none peer s id = refl
take_named-peers user_id auto (some name) peer s id =
    ap (contains id) (take_peer-Same user_id auto name peer s).peers
    ∙ contains-set_insert name id s.peers
    ∙ ground arith

cons_named-contains :
    (name : Option Bytes) (ids : List Bytes) (id : Bytes)
    → contains id (cons_named name ids) ≡ (contains id (cons_named name []) || contains id ids)
unfolding contains
cons_named-contains none ids id = refl
cons_named-contains (some name) ids id = ground arith

pub take_peers-peers :
    (user_id : Bytes) (auto : Bool) (peers : List (Option PeerInfo)) (s : Channel) (id : Bytes)
    → contains id (take_peers user_id auto peers s).peers
      ≡ (contains id (peer_ids peers) || contains id s.peers)
unfolding take_peers peer_ids contains
take_peers-peers user_id auto [] s id = refl
take_peers-peers user_id auto (none ∷ peers) s id = take_peers-peers user_id auto peers s id
take_peers-peers user_id auto (some peer ∷ peers) s id =
    let next = take_named user_id auto peer.id peer s in
    take_peers-peers user_id auto peers next id
    ∙ ground (
      arith,
      take_named-peers user_id auto peer.id peer s id,
      cons_named-contains peer.id (peer_ids peers) id,
    )
