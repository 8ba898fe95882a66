-- ===== src/NodeSelector/BestUrl.antt =====
-- The address to connect to (NodeSelector.cpp, lines 332 to 426).
use bff_rtc_base.Base.{
  ℕ, ◌+◌, not, ◌&&◌, [], ◌∷◌, Option, none, some, Bytes, if◌then◌else◌, is_empty, nat_eq, bytes_eq,
  contains, lookup,
}
use bff_rtc_base.Url.{Hosts, host_from_addr, replace_host}
use bff_rtc_base.Signal.Config.{Config}
use bff_rtc_base.Stun.Nodes.{Rtts}
use bff_rtc_base.NodeSelector.{Selector, SelectorEffect, record_effect, set_connect_cancel_flag}

abbrev pub answer : Bytes → Option Hosts → Selector → Selector
answer url hosts s = record_effect (SelectorEffect.answered url hosts) s

-- A thread is started that checks the node, under a new flag.
unfoldable pub start_check : (best_node : Bytes) → Selector → Selector
start_check best_node s =
    record_effect (SelectorEffect.checking s.flags best_node)
      (record (set_connect_cancel_flag (some s.flags) s) { flags = s.flags + 1 })

abbrev pub forget_nodes : Selector → Selector
forget_nodes s = record s { saved = record s.saved { best_node = []; nodes = [] } }

-- `testBestUrl`, behind its wait for the lists.
unfoldable pub test_best_url : Config → (url : Bytes) → Selector → Selector
unfolding start_check
test_best_url config url s0 =
    let old_host = host_from_addr url in
    let s = record s0 { saved = record s0.saved { server_ip = old_host } } in
    if not (is_empty s0.saved.nodes) && not (contains old_host s0.saved.nodes)
    then answer url (some config.hosts) (forget_nodes s)
    else if is_empty s0.saved.best_node
    then answer url (some config.hosts) s
    else start_check s0.saved.best_node s

-- The name of the first entry goes for the node too.
abbrev suggest : Bytes → Hosts → Hosts → Hosts
suggest best_node [] hosts = hosts
suggest best_node ((ip, name) ∷ others) hosts = elim (lookup best_node hosts) [
  | none ↦ (best_node, name) ∷ hosts
  | some n ↦ hosts
]

-- The thread that checks, from the answer of `SortStun` on.
unfoldable pub checked : Config → (url best_node : Bytes) → (flag : ℕ) → Rtts → Selector → Selector
checked config url best_node flag ret s =
    if contains flag s.cancelled
    then s
    else if is_empty ret
    then answer url none s
    else answer (replace_host url (host_from_addr url) best_node)
        (some (suggest best_node config.hosts config.hosts)) s

-- `getBestUrl` with a server that is configured; `none` where a thread goes on with `testBestUrl`.
unfoldable pub preferred_url : Option Bytes → Config → (url : Bytes) → Selector → Option Selector
preferred_url none config url s = none
preferred_url (some server) config url s =
    some (answer (replace_host url (host_from_addr url) server) (some config.hosts) s)
