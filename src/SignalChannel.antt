-- ===== src/SignalChannel.antt =====
-- SignalChannel.cpp: the peers of a channel (lines 13 to 62 and 66 to 142). What the channel calls of
-- Signal.cpp is a list of calls; whether a node is selected and whether the channels were asked to
-- join is what `Signal` answers.
pub mod Peers
use bff_rtc_base.Base.{
  ℕ, ◌+◌, ◌-◌, Bool, true, false, not, ◌||◌, ◌&&◌, List, [], ◌∷◌, ◌++◌, map, Option, none, some,
  Bytes, codes, if◌then◌else◌, is_empty, ℤ, ltb, leb, length, ◌==◌, nat_eq, bytes_eq, contains,
  set_insert, set_erase, emplace, to_i32,
}
use bff_rtc_base.Stun.Nodes.{Rtts}

-- `Rtc__PeerInfo`, `none` for a null pointer.
pub record PeerInfo : Type 0 where
  pub id : Option Bytes
  pub media_node : Bytes
  pub codecs : List (Option Bytes)
  pub node_rtts : List (Option (Option Bytes × ℕ))
  pub video_orientation : Bool
  pub sdk_version : ℕ

-- What the channel asks of the connection, and its handler of peers.
pub data ChannelCall : Type 0 where
  apply_node_rtts : Rtts → (is_self : Bool) → ChannelCall
  set_vcodecs : List Bytes → ChannelCall
  send_node_rtts_for_legacy_peer : ChannelCall
  set_orientation : Bool → ChannelCall
  peer_handler : (id : Bytes) → (is_self is_new : Bool) → ChannelCall
  join_all_channels : ChannelCall

-- `vcodecs` is the list of the connection.
pub record Channel : Type 0 where
  pub peers : List Bytes
  pub joined_peers : List Bytes
  pub joined : Bool
  pub orientation : List (Bytes × Bool)
  pub vcodecs : List Bytes
  pub calls : List ChannelCall

pub record JoinedUpdate : Type 0 where
  pub can_join : Bool
  pub self_joined : Bool
  pub peers_increased : Bool
  pub peer_ids : List Bytes

abbrev lower : ℕ → ℕ
lower c = if leb b'A' c && leb c b'Z' then c + 32 else c

unfoldable pub to_lower : Bytes → Bytes
to_lower s = map lower s

unfoldable pub capabilities : List (Option Bytes) → List Bytes
unfolding to_lower
capabilities [] = []
capabilities (none ∷ codecs) = capabilities codecs
capabilities (some c ∷ codecs) = to_lower c ∷ capabilities codecs

unfoldable pub keep_common : List Bytes → (cap : List Bytes) → List Bytes
unfolding to_lower
keep_common [] cap = []
keep_common (c ∷ codecs1) cap =
    let rest = keep_common codecs1 cap in
    if not (to_lower c == codes "vp9") && contains (to_lower c) cap then to_lower c ∷ rest else rest

unfoldable pub common_codecs : List Bytes → List (Option Bytes) → List Bytes
unfolding capabilities keep_common
common_codecs own theirs = if is_empty theirs then own else keep_common own (capabilities theirs)

unfoldable pub to_node_rtts : List (Option (Option Bytes × ℕ)) → Rtts
to_node_rtts [] = []
to_node_rtts (some (some ip, rtt) ∷ rtts) = (ip, to_i32 rtt) ∷ to_node_rtts rtts
to_node_rtts (_ ∷ rtts) = to_node_rtts rtts

abbrev pub call : ChannelCall → Channel → Channel
call c s = record s { calls = c ∷ s.calls }

unfoldable pub remove_peer : Bytes → Channel → Channel
remove_peer id s = record s {
  peers = set_erase id s.peers;
  joined_peers = set_erase id s.joined_peers;
}

abbrev pub set_joined : Bool → Channel → Channel
set_joined joined s = record s { joined = joined }

unfoldable pub is_legacy : ℕ → Bool
is_legacy version = ltb 0 version && ltb version 10302

abbrev apply_own : PeerInfo → Channel → Channel
apply_own peer s =
    if is_empty peer.node_rtts
    then s
    else call (ChannelCall.apply_node_rtts (to_node_rtts peer.node_rtts) true) s

abbrev take_codecs : PeerInfo → Channel → Channel
take_codecs peer s =
    let common = common_codecs s.vcodecs peer.codecs in
    if is_empty peer.codecs
    then s
    else call (ChannelCall.set_vcodecs common) (record s { vcodecs = common })

abbrev help_legacy : Bool → PeerInfo → Channel → Channel
help_legacy is_new peer s =
    if is_new && is_legacy peer.sdk_version
    then call ChannelCall.send_node_rtts_for_legacy_peer s
    else s

abbrev apply_other : PeerInfo → Channel → Channel
apply_other peer s =
    if is_empty peer.node_rtts
    then s
    else call (ChannelCall.apply_node_rtts (to_node_rtts peer.node_rtts) false) s

-- The sets of peers.
abbrev pub add_peer : Bytes → PeerInfo → Channel → Channel
add_peer id peer s = record s {
  peers = set_insert id s.peers;
  joined_peers = if is_empty peer.media_node then s.joined_peers else set_insert id s.joined_peers;
}

-- What a peer brings to the connection.
unfoldable pub apply_peer : (is_self is_new auto : Bool) → PeerInfo → Channel → Channel
unfolding common_codecs to_node_rtts is_legacy
apply_peer true is_new auto peer s = apply_own peer s
apply_peer false is_new true peer s = s
apply_peer false is_new false peer s =
    apply_other peer (help_legacy is_new peer (take_codecs peer s))

unfoldable pub take_peer : (user_id : Bytes) → (auto : Bool) → Bytes → PeerInfo → Channel → Channel
unfolding apply_peer
take_peer user_id auto id peer s =
    let is_new = not (contains id s.peers) in
    let is_self = id == user_id in
    let applied = apply_peer is_self is_new auto peer (add_peer id peer s) in
    call (ChannelCall.peer_handler id is_self is_new)
      (record applied { orientation = emplace id peer.video_orientation applied.orientation })

-- A peer without a name is passed over.
abbrev take_named : (user_id : Bytes) → (auto : Bool) → Option Bytes → PeerInfo → Channel → Channel
take_named user_id auto none peer s = s
take_named user_id auto (some id) peer s = take_peer user_id auto id peer s

unfoldable pub take_peers :
    (user_id : Bytes) → (auto : Bool) → List (Option PeerInfo) → Channel → Channel
unfolding take_peer
take_peers user_id auto [] s = s
take_peers user_id auto (none ∷ peers) s = take_peers user_id auto peers s
take_peers user_id auto (some peer ∷ peers) s =
    take_peers user_id auto peers (take_named user_id auto peer.id peer s)

abbrev pub cons_named : Option Bytes → List Bytes → List Bytes
cons_named none ids = ids
cons_named (some id) ids = id ∷ ids

unfoldable pub peer_ids : List (Option PeerInfo) → List Bytes
peer_ids [] = []
peer_ids (none ∷ peers) = peer_ids peers
peer_ids (some peer ∷ peers) = cons_named peer.id (peer_ids peers)

unfoldable pub all_oriented : List (Bytes × Bool) → Bool
all_oriented [] = true
all_oriented ((id, oriented) ∷ others) = oriented && all_oriented others

-- `applyJoinedPeers`; `selected` is the answer of `nodeSelected`, `joins` that of
-- `joinAllChannelsIfNeeded`.
unfoldable pub apply_joined_peers :
    (selected joins : Bool)
    → List (Option PeerInfo)
    → (user_id : Bytes) → (auto : Bool) → Channel
    → Channel × JoinedUpdate
unfolding take_peers peer_ids all_oriented
apply_joined_peers selected joins peers user_id auto s0 =
    let taken = take_peers user_id auto peers s0 in
    let s = call (ChannelCall.set_orientation (all_oriented taken.orientation)) taken in
    let ids = peer_ids peers in
    let ready = not s.joined && not auto && ltb 1 (length s.peers) && selected in
    let update : JoinedUpdate = record {
      can_join = ready && joins;
      self_joined = contains user_id ids;
      peers_increased = ltb (length s0.peers) (length s.peers);
      peer_ids = ids;
    } in
    if ready
    then (call ChannelCall.join_all_channels (record s { joined = true }), update)
    else (s, update)
