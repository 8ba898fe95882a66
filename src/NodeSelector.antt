-- ===== src/NodeSelector.antt =====
-- NodeSelector.cpp: the lists of nodes, the measurements that are kept, and the node that two peers
-- negotiate (lines 26 to 39, 76 to 126). `SortStun` of stun_test.cpp, clocks, the HTTP client and
-- the parser of JSON answer through arguments.
pub mod Lists
pub mod BestUrl
pub mod Agree
use bff_rtc_base.Base.{
  ℕ, ◌+◌, Bool, true, false, not, ◌||◌, List, [], ◌∷◌, Option, none, some, Bytes, if◌then◌else◌,
  is_empty, ℤ,
}
use bff_rtc_base.Url.{Hosts}
use bff_rtc_base.Signal.Config.{Config}
use bff_rtc_base.Stun.Nodes.{Rtts, find_best_node}

-- What the selector does outside: the callback with measurements, a thread that sorts nodes, a list
-- that is fetched, an answer of `getBestUrl`, the thread that checks the best node for it, and a
-- completion handler.
pub data SelectorEffect : Type 0 where
  told_rtts : Rtts → SelectorEffect
  sorting : (nodes : List Bytes) → (ip : Bytes) → SelectorEffect
  fetching : (url token : Bytes) → SelectorEffect
  set_clock_offset : (current_time : ℤ) → SelectorEffect
  completed : SelectorEffect
  checking : (flag : ℕ) → (best_node : Bytes) → SelectorEffect
  answered : (url : Bytes) → Option Hosts → SelectorEffect

-- The cache of the process. `nodes_info` is the text of JSON that the measurements are kept as.
pub record SavedNodes : Type 0 where
  pub nodes : List Bytes
  pub best_node : Bytes
  pub nodes_time : ℤ
  pub nodes_info : Bytes
  pub ip : Bytes
  pub server_ip : Bytes

-- A flag that cancels is a number, `flags` how many were made, and `cancelled` those that are set.
pub record Selector : Type 0 where
  pub update_nodes_count : ℕ
  pub flags : ℕ
  pub connect_cancel : Option ℕ
  pub cancelled : List ℕ
  pub node_rtts_self : Rtts
  pub node_rtts : Rtts
  pub best_node_negotiated : Bytes
  pub saved : SavedNodes
  pub trace : List SelectorEffect

abbrev pub record_effect : SelectorEffect → Selector → Selector
record_effect e s = record s { trace = e ∷ s.trace }

-- The measurements as JSON: `dump`, and the numbers among its members.
pub record Json : Type 0 where
  pub dump_rtts : Rtts → Bytes
  pub parse_rtts : Bytes → Option Rtts

unfoldable pub update_rtts : Rtts → Selector → Selector
update_rtts result s = record_effect (SelectorEffect.told_rtts result) s

abbrev pub prefer : Option Bytes → Selector → Selector
prefer none s = s
prefer (some server) s = record s { best_node_negotiated = server }

abbrev pub store_rtts : Rtts → Bool → Selector → Selector
store_rtts rtts true s = record s { node_rtts_self = rtts }
store_rtts rtts false s = record s { node_rtts = rtts }

-- Behind the preference: the node is chosen once both sides have measured.
unfoldable pub negotiate : Selector → Selector
negotiate s =
    if not (is_empty s.best_node_negotiated) || is_empty s.node_rtts_self || is_empty s.node_rtts
    then s
    else record s { best_node_negotiated = find_best_node s.node_rtts_self s.node_rtts }

unfoldable pub apply_node_rtts : Config → Rtts → Bool → Selector → Selector
unfolding negotiate
apply_node_rtts config rtts is_self s = negotiate (prefer config.server (store_rtts rtts is_self s))

-- The flag that was there is set.
abbrev cancel_flag : Option ℕ → List ℕ → List ℕ
cancel_flag none cancelled = cancelled
cancel_flag (some flag) cancelled = flag ∷ cancelled

abbrev pub set_connect_cancel_flag : Option ℕ → Selector → Selector
set_connect_cancel_flag flag s = record s {
  connect_cancel = flag;
  cancelled = cancel_flag s.connect_cancel s.cancelled;
}

unfoldable pub cancel_connect_operation : Selector → Selector
cancel_connect_operation s = set_connect_cancel_flag none s
