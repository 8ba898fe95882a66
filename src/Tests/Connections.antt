-- ===== src/Tests/Connections.antt =====
-- A connection of the mixed implementation over transports that do as they are told.
use bff_rtc_base.Base.{
  ◌+◌, ◌≤◌, Bool, true, false, ◌≡◌, refl, List, [], ◌∷◌, Option, none, some, Bytes, codes, arith,
  pos, All,
}
use bff_rtc_base.Url.{sni_host_for_url}
use bff_rtc_base.Url.Token.{replace_token_query}
use bff_rtc_base.Signal.Config.{Config, SignalImplementation, RtcIcePolicy, RtcError}
use bff_rtc_base.Signal.Race.{Leg}
use bff_rtc_base.Signal.Request.{SignalRequest}
use bff_rtc_base.Signal.State.{Private}
use bff_rtc_base.Signal.Links.{Links, CurlCodes, Callback, QuicState, QuicErrorKind}
use bff_rtc_base.Signal.Send.{leave_request, flush_pending_reqs}
use bff_rtc_base.Signal.Send.Flush.{
  IsPacked, sent_all, flush_pending_reqs-offline, flush_pending_reqs-online,
}
use bff_rtc_base.Signal.Connection.{on_callback, on_transport_open, fail_fatal}
use bff_rtc_base.Signal.Connection.Winner.{closings, on_transport_open-wins}
use bff_rtc_base.Signal.Builders.{join_all_channels_if_needed}
use bff_rtc_base.Signal.NodeRtts.Once.{join_all_channels_if_needed_twice}
use bff_rtc_base.Signal.Connect.{begin_connect, may_reconnect}
use bff_rtc_base.Signal.Connect.Steps.{Step, Steps}
use bff_rtc_base.Signal.Connect.Reconnects.{reconnects, Counts, begin_connect-reconnects}
use bff_rtc_base.Signal.Connect.Bounded.{reconnects_bounded}
use bff_rtc_base.Signal.Connect.Begin.{IsFresh, begin_connect-IsFresh, may_reconnect-fail_fatal}

-- A codec for leave requests.
abbrev unpack_leave : Bytes → Option SignalRequest
unpack_leave (id ∷ []) = some (record leave_request { id = id })
unpack_leave _ = none

abbrev pub up : Links
up = record {
  opens = λ leg trace. true;
  open_error = λ trace. none;
  quic_state = λ trace. QuicState.connecting;
  is_running = λ leg trace. true;
  sends = λ leg trace. true;
  send_request_fn = none;
  best_node = λ trace. [];
  pack = λ req. some (req.id ∷ []);
  unpack = unpack_leave;
  to_json = λ req. none;
}

-- No compression.
abbrev no_zstd : Bytes → Bytes
no_zstd sdp = []

abbrev down : Links
down = record up { opens = λ leg trace. false; is_running = λ leg trace. false }

abbrev pub config : Config
config = record {
  role = none;
  hosts = [];
  sni = false;
  compression = false;
  ice_policy = RtcIcePolicy.all;
  server = none;
  server_recheck = pos 0;
  servers_sort_timeout = pos 0;
  signal = record {
    server = none;
    json = false;
    implementation = SignalImplementation.mixed;
    mixed_delay = pos 300;
    connect_timeout = pos 5000;
    ping_interval = pos 10000;
    ping_timeout = pos 30000;
    reconnect_interval = pos 1000;
    reconnect_max_times = pos 3;
    response_timeout = pos 5000;
    auto_subscribe = false;
  };
}

abbrev pub curl_codes : CurlCodes
curl_codes = record {
  ssl_codes = pos 60 ∷ [];
  operation_timedout = pos 28;
  never_connected = pos 101;
}

abbrev pub idle : Private
idle = record {
  race = record {
    primary_leg = Leg.curl;
    has_alt = false;
    session_open = false;
    mixed_delay_gen = 0;
    mixed_delay_pending = false;
    pending_url = [];
    pending_sni = [];
  };
  life = record {
    owner = true;
    user_closed = false;
    suppress_reconnect = false;
    keepalive_gen = 0;
    reconnect_gen = 0;
    last_recv_ms = none;
    reconnect_count = 0;
    state_string = [];
    server_url = codes "wss://a";
    last_code = pos 0;
    disconnect_closing = false;
    disconnect_leave_req_id = 0;
    disconnect_close_gen = 0;
  };
  requests = record {
    msg_id = 3;
    important_reqs = [];
    pending_reqs = (1 ∷ []) ∷ (2 ∷ []) ∷ [];
    use_json = false;
    recreating = false;
    subscribing = false;
    join_requested = false;
    join_all_requested = false;
    auto_media_join = true;
    vcodecs = [];
    orientation = false;
    location = none;
  };
  cache = record {
    node_rtts = (codes "a", pos 3) ∷ [];
    node_rtts_sent_channels = [];
    legacy_node_rtts_channels = [];
    rtts = [];
  };
  listeners = pos 1 ∷ [];
  hosts = [];
  token = [];
  auth_token = [];
  client_ip = [];
  last_offer = [];
  host = [];
  port = 0;
  trace = [];
}

-- Both transports are connecting.
abbrev racing : Private
racing = record idle {
  race = record idle.race {
    primary_leg = Leg.quic;
    has_alt = true;
    mixed_delay_gen = 5;
    pending_url = codes "wss://a";
  };
}

idle-IsPacked : All (IsPacked up) idle.requests.pending_reqs
idle-IsPacked = (
  (record leave_request { id = 1 }, refl, refl, λ e. ground arith),
  ((record leave_request { id = 2 }, refl, refl, λ e. ground arith), tt),
)

flush_pending_reqs-offline_example : flush_pending_reqs down idle ≡ idle
flush_pending_reqs-offline_example =
    flush_pending_reqs-offline down idle ((λ leg trace. refl), refl) idle-IsPacked

flush_pending_reqs-online_example :
    ((flush_pending_reqs up idle).requests.pending_reqs ≡ [])
    × ((flush_pending_reqs up idle).trace ≡ sent_all Leg.curl ((1 ∷ []) ∷ (2 ∷ []) ∷ []) [])
flush_pending_reqs-online_example =
    flush_pending_reqs-online up idle ((λ leg trace. refl), (λ leg trace. refl)) refl idle-IsPacked

-- TCP wins.
on_transport_open-wins_example :
    let e = on_transport_open up config Leg.curl racing in
    (e.race.primary_leg ≡ Leg.curl)
    × (e.race.has_alt ≡ false)
    × (e.race.session_open ≡ true)
    × (e.race.mixed_delay_pending ≡ false)
    × (closings Leg.curl e.trace ≡ closings Leg.curl [])
on_transport_open-wins_example =
    on_transport_open-wins up config Leg.curl racing refl refl refl (λ e. refl)

abbrev racing_closed : Private
racing_closed = record racing { life = record racing.life { user_closed = true } }

-- Connected again while the old transports report an error of QUIC and a late opening.
abbrev reports : List Callback
reports =
    Callback.on_quic_error QuicErrorKind.other (pos 0)
    ∷ Callback.on_open Leg.curl
    ∷ Callback.on_close Leg.curl (pos 1006) true
    ∷ []

abbrev connected : Option (Private × Bool)
connected = begin_connect up config curl_codes reports (codes "wss://a") racing

result : Option (Private × Bool) → Private
result none = idle
result (some (d, ok)) = d

connects : connected ≡ some (result connected, true)
unfolding begin_connect sni_host_for_url result
connects = refl

begin_connect-reconnects_example : Counts 0 0 (result connected)
unfolding reconnects
begin_connect-reconnects_example =
    begin_connect-reconnects up config curl_codes reports (codes "wss://a") racing
      (result connected) connects (refl, refl)

begin_connect-IsFresh_example : IsFresh up config curl_codes (result connected)
begin_connect-IsFresh_example =
    begin_connect-IsFresh up config curl_codes reports (codes "wss://a") racing (result connected)
      connects

-- QUIC refuses the address: the error is fatal before `begin_connect` returns.
abbrev refusing : Links
refusing = record down {
  open_error = λ trace. some (QuicErrorKind.invalid_url, pos 0);
  quic_state = λ trace. QuicState.closed;
}

refused_suppresses :
    (result
      (begin_connect refusing config curl_codes [] (codes "wss://a") idle)).life.suppress_reconnect
    ≡ true
unfolding begin_connect sni_host_for_url result replace_token_query
refused_suppresses = refl

may_reconnect-fail_fatal_example :
    may_reconnect up config curl_codes 0 (codes "wss://a") (fail_fatal RtcError.token idle)
    ≡ may_reconnect up config curl_codes 0 (codes "wss://a") idle
may_reconnect-fail_fatal_example =
    may_reconnect-fail_fatal up config curl_codes RtcError.token 0 (codes "wss://a") idle

join_all_channels_if_needed_twice_example :
    let once = (join_all_channels_if_needed up config no_zstd idle).0 in
    join_all_channels_if_needed up config no_zstd once ≡ (once, false)
join_all_channels_if_needed_twice_example = join_all_channels_if_needed_twice up config no_zstd idle

-- A remote close of the only transport.
abbrev lost : Private
lost = on_callback up config curl_codes (Callback.on_close Leg.curl (pos 1006) true) idle

waits_to_reconnect : reconnects lost.trace ≡ 1
unfolding reconnects on_callback
waits_to_reconnect = refl

reconnects_bounded_example : reconnects lost.trace + 0 ≤ reconnects [] + 3
reconnects_bounded_example = reconnects_bounded up config curl_codes idle lost (omega arith) (
    Steps.next (Step.called_back (Callback.on_close Leg.curl (pos 1006) true) idle)
      (Steps.done lost))
