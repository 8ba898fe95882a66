-- ===== src/Signal/NodeRtts.antt =====
-- The round trips of the nodes on their way to the server (Signal.cpp lines 114 to 120, 1144 to
-- 1195 and 1239 to 1250): once for each channel and measurement.
pub mod Once
use bff_rtc_base.Base.{
  Bool, true, false, ◌||◌, List, [], ◌∷◌, Bytes, if◌then◌else◌, is_empty, ℤ, int_eq, bytes_eq,
  contains, insert_or_assign, is_negative, set_insert, lookup, leb_ℤ, pos, Option, none, some, ◌==◌,
  ◌&&◌,
}
use bff_rtc_base.Signal.Config.{Config}
use bff_rtc_base.Signal.State.{Private, NodeCache}
use bff_rtc_base.Signal.Links.{Links}
use bff_rtc_base.Signal.Builders.{node_rtts}

-- `nodeRttsByIp`: the last time of each address.
abbrev pub by_ip : List (Bytes × ℤ) → List (Bytes × ℤ) → List (Bytes × ℤ)
by_ip [] m = m
by_ip ((ip, rtt) ∷ rtts) m = by_ip rtts (insert_or_assign ip rtt m)

abbrev pub has_entry : List (Bytes × ℤ) → Bytes → ℤ → Bool
has_entry m ip rtt = elim (lookup ip m) [ none ↦ false | some r ↦ r == rtt ]

abbrev pub is_part_of : List (Bytes × ℤ) → List (Bytes × ℤ) → Bool
is_part_of [] n = true
is_part_of ((ip, rtt) ∷ m) n = has_entry n ip rtt && is_part_of m n

-- The two maps are equal.
abbrev pub same_rtts : List (Bytes × ℤ) → List (Bytes × ℤ) → Bool
same_rtts a b = is_part_of (by_ip a []) (by_ip b []) && is_part_of (by_ip b []) (by_ip a [])

-- There is nothing to send, or the channel has it.
abbrev pub is_done : ℤ → NodeCache → Bool
is_done channel cache = is_empty cache.node_rtts || contains channel cache.node_rtts_sent_channels

module _ (links : Links) (config : Config) (encode : Bytes → Bytes) where
  unfoldable pub send_cached_node_rtts : ℤ → Private → Private
  unfolding node_rtts
  send_cached_node_rtts channel d =
      let cache = d.cache in
      let marked = record cache {
        node_rtts_sent_channels = set_insert channel cache.node_rtts_sent_channels;
      } in
      if is_done channel cache
      then d
      else node_rtts links config encode cache.node_rtts channel (record d { cache = marked })

  unfoldable pub send_cached_to : List ℤ → Private → Private
  unfolding send_cached_node_rtts
  send_cached_to [] d = d
  send_cached_to (channel ∷ channels) d = send_cached_to channels (send_cached_node_rtts channel d)

  unfoldable pub mark_legacy : List ℤ → List ℤ → List ℤ
  mark_legacy [] legacy = legacy
  mark_legacy (channel ∷ channels) legacy = mark_legacy channels (set_insert channel legacy)

  unfoldable pub send_node_rtts_for_legacy_peer : Private → Private
  unfolding send_cached_to mark_legacy
  send_node_rtts_for_legacy_peer d = send_cached_to d.listeners (record d {
    cache = record d.cache {
      legacy_node_rtts_channels = mark_legacy d.listeners d.cache.legacy_node_rtts_channels;
    };
  })

  abbrev pub send_to_first : List ℤ → Private → Private
  send_to_first [] d = d
  send_to_first (channel ∷ channels) d =
      if is_negative channel then d else send_cached_node_rtts channel d

  unfoldable pub send_node_rtts_to_first_channel : List (Bytes × ℤ) → Private → Private
  unfolding send_cached_to
  send_node_rtts_to_first_channel result d =
      let renewed = record d {
        cache = record d.cache { node_rtts = result; node_rtts_sent_channels = [] };
      } in
      if same_rtts d.cache.node_rtts result
      then d
      else send_cached_to d.cache.legacy_node_rtts_channels (send_to_first d.listeners renewed)
