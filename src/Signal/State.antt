-- ===== src/Signal/State.antt =====
-- The state of `Signal::Private` (Signal.cpp lines 876 to 934), and what the code does to the
-- world around it, newest first.
use bff_rtc_base.Base.{ℕ, Bool, List, [], ◌∷◌, Option, Bytes, ℤ}
use bff_rtc_base.Url.{Hosts}
use bff_rtc_base.Signal.Config.{RtcError}
use bff_rtc_base.Signal.Race.{Leg, Race}
use bff_rtc_base.Signal.Request.{SignalRequest, Location}

pub record IceCandidate : Type 0 where
  pub sdp : Bytes
  pub sdp_mid : Bytes
  pub sdp_mline_index : ℤ

-- A call of a listener; messages that the code hands on as they are count as their bytes.
pub data Notice : Type 0 where
  on_quic : Bool → Notice
  on_reconnect : Notice
  on_error : RtcError → Notice
  on_joined : (joined : Bytes) → (auto_media_join : Bool) → Notice
  on_config : Bytes → Notice
  on_subscribe : (audio video : Bool) → Notice
  on_changed_address : Bytes → Notice
  on_offer on_answer : (from sdp : Bytes) → Notice
  on_candidate : (from : Bytes) → IceCandidate → Notice
  on_add_track on_add_stream on_remove_tracks on_leaved : Bytes → Notice
  on_changed_peer_state : (from : Bytes) → (state : ℤ) → Notice
  on_negotiation : (from : Bytes) → Bool → Notice

-- A thread that sleeps is recorded with the generation, the time and the address that it keeps.
pub data Effect : Type 0 where
  connect_timeout : Leg → ℤ → Effect
  opened : Leg → (url sni : Bytes) → Effect
  closed closed_async : Leg → Effect
  joined_itself : Leg → Effect
  sent : Leg → (payload : Bytes) → (binary : Bool) → Effect
  handed : SignalRequest → Effect
  mixed_thread : ℕ → ℤ → Effect
  reconnect_thread : ℕ → ℤ → Bytes → Effect
  keepalive_thread : ℕ → Effect
  disconnect_thread : ℕ → ℤ → Effect
  nodes_listed : (nodes : List Bytes) → (port : ℕ) → (client_ip : Bytes) → Effect
  dict_set : (dict : Bytes) → Effect
  notified : (channel : ℤ) → Notice → Effect

-- The course of the connection. `last_recv_ms` is `none` for the code's -1.
pub record Life : Type 0 where
  pub owner : Bool
  pub user_closed : Bool
  pub suppress_reconnect : Bool
  pub keepalive_gen : ℕ
  pub reconnect_gen : ℕ
  pub last_recv_ms : Option ℕ
  pub reconnect_count : ℕ
  pub state_string : Bytes
  pub server_url : Bytes
  pub last_code : ℤ
  pub disconnect_closing : Bool
  pub disconnect_leave_req_id : ℕ
  pub disconnect_close_gen : ℕ

pub record Requests : Type 0 where
  pub msg_id : ℕ
  pub important_reqs : List ℕ
  pub pending_reqs : List Bytes
  pub use_json : Bool
  pub recreating : Bool
  pub subscribing : Bool
  pub join_requested : Bool
  pub join_all_requested : Bool
  pub auto_media_join : Bool
  pub vcodecs : List Bytes
  pub orientation : Bool
  pub location : Option Location

-- The round trips of the nodes, under `node_rtts_mtx`, with the channels that have got them, and
-- the round trips to the server by channel.
pub record NodeCache : Type 0 where
  pub node_rtts : List (Bytes × ℤ)
  pub node_rtts_sent_channels : List ℤ
  pub legacy_node_rtts_channels : List ℤ
  pub rtts : List (ℤ × ℕ)

-- A listener counts by its channel. `auth_token` is the token that HttpClient.cpp shares.
pub record Private : Type 0 where
  pub race : Race
  pub life : Life
  pub requests : Requests
  pub cache : NodeCache
  pub listeners : List ℤ
  pub hosts : Hosts
  pub token : Bytes
  pub auth_token : Bytes
  pub client_ip : Bytes
  pub last_offer : Bytes
  pub host : Bytes
  pub port : ℕ
  pub trace : List Effect

unfoldable pub emit : Effect → Private → Private
emit e d = record d { trace = e ∷ d.trace }

unfoldable pub notices : Notice → List ℤ → List Effect → List Effect
notices n [] done = done
notices n (channel ∷ channels) done = notices n channels (notified channel n ∷ done)

-- `enumerateListeners` with one call for each.
unfoldable pub enumerate_listeners : Notice → Private → Private
unfolding notices
enumerate_listeners n d = record d { trace = notices n d.listeners d.trace }
