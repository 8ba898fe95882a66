-- ===== src/Tests/Channels.antt =====
-- Two peers that measure, and a channel that they join.
use bff_rtc_base.Base.{
  ◌≡◌, refl, true, false, List, [], ◌∷◌, none, some, Bytes, codes, arith, pos, contains, bytes_beq,
  bytes_eq, rfind_byte, find_byte,
}
use bff_rtc_base.Stun.Nodes.{Rtts, normalize_node_ip, find_best_node}
use bff_rtc_base.Stun.Nodes.Loop.{rtt_of}
use bff_rtc_base.NodeSelector.{Selector, Json}
use bff_rtc_base.NodeSelector.Lists.{async_sorted, auto_done, fetch_nodes}
use bff_rtc_base.NodeSelector.Agree.{IsNew, apply_all, both, negotiated_agree}
use bff_rtc_base.SignalChannel.{PeerInfo, Channel}
use bff_rtc_base.SignalChannel.Peers.History.{
  ChannelStep, run_channel, is_peer, IsPart, run_channel-peers, run_channel-IsPart,
}
use bff_rtc_base.Tests.Connections.{config}
use bff_rtc_base.Tests.Servers.{one_common-NoTie}

abbrev peer : Bytes → Bytes → PeerInfo
peer id media_node = record {
  id = some id;
  media_node = media_node;
  codecs = some (codes "H264") ∷ [];
  node_rtts = some (some (codes "n"), 3) ∷ [];
  video_orientation = true;
  sdk_version = 10301;
}

abbrev no_peers : Channel
no_peers = record {
  peers = [];
  joined_peers = [];
  joined = false;
  orientation = [];
  vcodecs = codes "h264" ∷ [];
  calls = [];
}

abbrev steps : List ChannelStep
steps =
    ChannelStep.joins true true
      (some (peer (codes "a") (codes "n")) ∷ none ∷ some (peer (codes "b") []) ∷ []) (codes "a")
      false
    ∷ ChannelStep.leaves (codes "a")
    ∷ []

run_channel-peers_example :
    contains (codes "b") (run_channel steps no_peers).peers ≡ is_peer (codes "b") steps false
unfolding contains
run_channel-peers_example = run_channel-peers (codes "b") steps no_peers

no_peers-IsPart : IsPart no_peers
no_peers-IsPart = record { part = λ id h. h }

run_channel-IsPart_example : IsPart (run_channel steps no_peers)
run_channel-IsPart_example = run_channel-IsPart steps no_peers no_peers-IsPart

abbrev new : Selector
new = record {
  update_nodes_count = 0;
  flags = 0;
  connect_cancel = none;
  cancelled = [];
  node_rtts_self = [];
  node_rtts = [];
  best_node_negotiated = [];
  saved = record {
    nodes = [];
    best_node = [];
    nodes_time = pos 0;
    nodes_info = [];
    ip = [];
    server_ip = [];
  };
  trace = [];
}

new-IsNew : IsNew new
new-IsNew = record { own = refl; other = refl; chosen = refl }

abbrev here : Rtts
here = (codes "x", pos 3) ∷ []

abbrev there : Rtts
there = (codes "x", pos 4) ∷ []

negotiated_agree_example :
    (apply_all config
      ((here, false) ∷ [])
      (both config refl true here there new)).best_node_negotiated
    ≡ (apply_all config [] (both config refl false there here new)).best_node_negotiated
unfolding rtt_of normalize_node_ip find_best_node rfind_byte find_byte bytes_beq
negotiated_agree_example =
    negotiated_agree config config here there true false ((here, false) ∷ []) [] new new (codes "x")
      (pos 3) (pos 4) refl refl new-IsNew new-IsNew (refl, tt) (refl, tt) (omega arith, tt)
      (omega arith, tt) one_common-NoTie (record { own = refl; other = refl }) (λ e. ground arith)

abbrev json : Json
json = record { dump_rtts = λ rtts. []; parse_rtts = λ text. none }

-- A list comes in, and the thread that measures it ends before the completion handler returns: the
-- count stays at 1.
count_stays :
    (auto_done true (
      async_sorted json
        (codes "x" ∷ [])
        []
        here
        (pos 0)
        (fetch_nodes (codes "s") [] new))).update_nodes_count
    ≡ 1
unfolding async_sorted fetch_nodes
count_stays = refl
