-- ===== src/NodeSelector/Lists.antt =====
-- The lists of nodes (NodeSelector.cpp, lines 76 to 82, 128 to 330 and 428 to 510): how they are
-- fetched, measured and kept.
use bff_rtc_base.Base.{
  ℕ, Bool, true, false, not, ◌&&◌, List, [], ◌∷◌, ◌++◌, map, Option, none, some, Bytes, codes,
  if◌then◌else◌, is_empty, ℤ, pos, ltb, ltb_ℤ, length, ◌==◌, nat_eq, bytes_eq, contains, find_byte,
  substr, to_string, sub_ℤ,
}
use bff_rtc_base.Url.{host_from_addr}
use bff_rtc_base.Signal.Config.{Config}
use bff_rtc_base.Stun.Nodes.{Rtts}
use bff_rtc_base.NodeSelector.{
  Selector, SavedNodes, SelectorEffect, Json, record_effect, update_rtts,
}

-- `std::set<string>`: in the order of the bytes, each text once.
abbrev before : Bytes → Bytes → Bool
before [] [] = false
before [] (y ∷ ys) = true
before (x ∷ xs) [] = false
before (x ∷ xs) (y ∷ ys) = if ltb x y then true else if x == y then before xs ys else false

unfoldable pub insert_sorted : Bytes → List Bytes → List Bytes
insert_sorted s [] = s ∷ []
insert_sorted s (t ∷ ts) =
    let rest = insert_sorted s ts in
    if before s t then s ∷ t ∷ ts else if s == t then t ∷ ts else t ∷ rest

unfoldable pub sorted_set : List Bytes → List Bytes → List Bytes
unfolding insert_sorted
sorted_set [] done = done
sorted_set (s ∷ ss) done = sorted_set ss (insert_sorted s done)

abbrev same_list : List Bytes → List Bytes → Bool
same_list [] [] = true
same_list (s ∷ ss) (t ∷ ts) = s == t && same_list ss ts
same_list _ _ = false

unfoldable pub strip_port : Bytes → Bytes
strip_port node = elim (find_byte b':' node) [ none ↦ node | some colon ↦ substr node 0 colon ]

-- The first measurement, or `other` where there is none.
abbrev pub first_node : Rtts → Bytes → Bytes
first_node [] other = other
first_node ((node, rtt) ∷ rtts) other = node

-- `asyncSort`, until its thread has measured.
unfoldable pub async_sort : List Bytes → Bytes → Selector → Selector
async_sort nodes ip s = record_effect (SelectorEffect.sorting nodes ip) s

-- Made up where nothing could be measured, to be able to join.
unfoldable pub made_up : List Bytes → Rtts
made_up [] = []
made_up (server ∷ servers) = (host_from_addr server, pos 0) ∷ made_up servers

module _ (json : Json) where
  unfoldable pub save_measured : List Bytes → Bytes → Rtts → (now : ℤ) → Selector → Selector
  unfolding strip_port
  save_measured nodes ip ret now s = record s {
    saved = record s.saved {
      best_node = first_node ret [];
      nodes_time = now;
      nodes = map strip_port nodes;
      nodes_info = json.dump_rtts ret;
      ip = ip;
    };
  }

  -- The thread of `asyncSort`, from what `SortStun` has measured on.
  unfoldable pub async_sorted : List Bytes → Bytes → Rtts → (now : ℤ) → Selector → Selector
  unfolding made_up sorted_set save_measured update_rtts
  async_sorted nodes ip ret now s0 =
      let s =
        if is_empty ret
        then update_rtts (made_up (sorted_set nodes [])) s0
        else save_measured nodes ip ret now (update_rtts ret s0) in
      record s { update_nodes_count = 0 }

  -- What a saved measurement counts for: it is told again.
  abbrev tell_saved : Option Rtts → Selector → Selector
  tell_saved none s = s
  tell_saved (some rtts) s = update_rtts rtts s

  abbrev is_recent : Config → (now : ℤ) → SavedNodes → Bool
  is_recent config now saved =
      not (is_empty saved.best_node) && ltb_ℤ (sub_ℤ now saved.nodes_time) config.server_recheck

  -- With the list and the address of the last time, and a recent measurement.
  abbrev is_known : Config → List Bytes → (client_ip : Bytes) → (now : ℤ) → SavedNodes → Bool
  is_known config nodes client_ip now saved =
      same_list (sorted_set saved.nodes []) (sorted_set nodes [])
      && not (is_empty saved.ip)
      && client_ip == saved.ip
      && is_recent config now saved

  -- `SortStun` is called where the list is not known; `result` is its answer.
  unfoldable pub measure_list :
      List Bytes
      → (with_port : List Bytes) → (client_ip : Bytes) → Rtts
      → (now : ℤ) → Selector
      → Selector × Bytes
  unfolding async_sort update_rtts sorted_set
  measure_list nodes with_port client_ip result now s =
      let best = first_node result s.saved.best_node in
      let next =
        if ltb (length result) (length (sorted_set nodes []))
        then async_sort with_port client_ip s
        else update_rtts result s in
      (
        record next {
          saved = record next.saved {
            nodes = nodes;
            best_node = best;
            nodes_time = now;
            nodes_info = json.dump_rtts result;
            ip = client_ip;
          };
        },
        best,
      )

  -- `onNodeList`; `client_ip` is empty where the caller has none.
  abbrev with_preference :
      Option Bytes
      → List Bytes
      → (client_ip : Bytes) → Selector
      → Selector × Bytes
      → Selector × Bytes
  with_preference none with_port client_ip s other = other
  with_preference (some server) with_port client_ip s other =
      (record (async_sort with_port client_ip s) { best_node_negotiated = server }, server)

  unfoldable pub on_node_list :
      Config
      → List Bytes
      → (port : ℕ) → (client_ip : Bytes) → Rtts
      → (now : ℤ) → Selector
      → Selector × Bytes
  unfolding async_sort measure_list
  on_node_list config nodes port client_ip result now s =
      let with_port = map (λ node. node ++ codes ":" ++ to_string port) nodes in
      let saved = s.saved in
      let told =
        if is_empty saved.nodes_info then s else tell_saved (json.parse_rtts saved.nodes_info) s in
      let other =
        if is_known config nodes client_ip now saved
        then (async_sort with_port client_ip told, saved.best_node)
        else measure_list nodes with_port client_ip result now s in
      with_preference config.server with_port client_ip s other

-- The answer to a request of `/nodelist`, the members of its JSON where they have their types.
pub record ListReply : Type 0 where
  pub ips : Option (List (Option Bytes))
  pub stun_port : ℕ
  pub client_ip : Bytes
  pub current_time : ℤ

-- `updateNodesInternal`, until the answer comes in.
unfoldable pub fetch_nodes : (server token : Bytes) → Selector → Selector
fetch_nodes server token s =
    let url = codes "https://" ++ host_from_addr server ++ codes ":7202/nodelist" in
    record_effect (SelectorEffect.fetching url token) (record s { update_nodes_count = 2 })

-- `autoDone`
abbrev pub auto_done : (sort : Bool) → Selector → Selector
auto_done sort s = record (record_effect SelectorEffect.completed s) {
  update_nodes_count = if sort then 1 else 0;
}

unfoldable pub with_ports : ℕ → List (Option Bytes) → List Bytes
with_ports port [] = []
with_ports port (none ∷ ips) = with_ports port ips
with_ports port (some ip ∷ ips) = (ip ++ codes ":" ++ to_string port) ∷ with_ports port ips

unfoldable pub add_missing : List Bytes → List Bytes → List Bytes
add_missing [] ips = ips
add_missing (s ∷ extra) ips = add_missing extra (if contains s ips then ips else ips ++ s ∷ [])

abbrev set_clock : ℤ → Selector → Selector
set_clock time s =
    if ltb_ℤ (pos 0) time then record_effect (SelectorEffect.set_clock_offset time) s else s

unfoldable pub take_list :
    (extra : List Bytes) → ListReply → Option (List (Option Bytes)) → Selector → Selector
unfolding async_sort with_ports add_missing
take_list extra reply none s = auto_done false s
take_list extra reply (some ips) s =
    let all = add_missing extra (with_ports reply.stun_port ips) in
    auto_done true (async_sort all reply.client_ip (set_clock reply.current_time s))

-- The callback of the request: none where it fails or its answer is no JSON.
unfoldable pub on_list_reply : (extra : List Bytes) → Option ListReply → Selector → Selector
unfolding take_list
on_list_reply extra none s = auto_done false s
on_list_reply extra (some reply) s = take_list extra reply reply.ips s

-- `updateNodes`: the bootstrap servers are measured first, with the answer `ret`.
unfoldable pub update_nodes : (servers : List Bytes) → (token : Bytes) → Rtts → Selector → Selector
unfolding fetch_nodes
update_nodes [] token ret s = record_effect SelectorEffect.completed s
update_nodes (server ∷ servers) token ret s =
    fetch_nodes (first_node ret (host_from_addr server ++ codes ":3478")) token s
