-- ===== src/Signal/Config.antt =====
-- defs.h: the configuration that the signaling core reads, and the errors that it reports.
use bff_rtc_base.Base.{Bool, Option, Bytes, ℤ}
use bff_rtc_base.Url.{Hosts}

pub data RtcError : Type 0 where
  signal_failed ssl token : RtcError

pub data RtcIcePolicy : Type 0 where
  none all no_host relay udp tcp tls : RtcIcePolicy

pub data SignalImplementation : Type 0 where
  curl quic mixed : SignalImplementation

-- Times in milliseconds.
pub record SignalOptions : Type 0 where
  pub server : Option Bytes
  pub json : Bool
  pub implementation : SignalImplementation
  pub mixed_delay : ℤ
  pub connect_timeout : ℤ
  pub ping_interval : ℤ
  pub ping_timeout : ℤ
  pub reconnect_interval : ℤ
  pub reconnect_max_times : ℤ
  pub response_timeout : ℤ
  pub auto_subscribe : Bool

pub record Config : Type 0 where
  pub role : Option Bytes
  pub hosts : Hosts
  pub sni : Bool
  pub compression : Bool
  pub ice_policy : RtcIcePolicy
  pub server : Option Bytes
  pub server_recheck : ℤ
  pub servers_sort_timeout : ℤ
  pub signal : SignalOptions

abbrev pub is_mixed : SignalImplementation → Bool
is_mixed SignalImplementation.mixed = Bool.true
is_mixed _ = Bool.false

abbrev pub is_curl : SignalImplementation → Bool
is_curl SignalImplementation.curl = Bool.true
is_curl _ = Bool.false
