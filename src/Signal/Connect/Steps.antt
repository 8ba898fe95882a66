-- ===== src/Signal/Connect/Steps.antt =====
-- What may happen to a connection between two calls of `connect`: callbacks, threads that wake up,
-- requests, and the user's disconnect, in any order. The answer to the leave request is the only
-- response that counts here.
use bff_rtc_base.Base.{ℕ, Bool, ◌≡◌, List, some, Bytes}
use bff_rtc_base.Signal.Config.{Config}
use bff_rtc_base.Signal.Request.{SignalRequest}
use bff_rtc_base.Signal.State.{Private}
use bff_rtc_base.Signal.Links.{Links, CurlCodes, Callback}
use bff_rtc_base.Signal.Send.{send_request, request_or_again, flush_pending_reqs}
use bff_rtc_base.Signal.Connection.{on_callback}
use bff_rtc_base.Signal.Connect.{
  mixed_delay_over, reconnect_delay_over, ping_overdue, disconnect, disconnect_wait_over,
  maybe_close_after_response,
}

pub data Step (links : Links) (config : Config) (curl : CurlCodes)
    : Private → Private → Type 0 where
  called_back :
      (c : Callback) (d : Private) → Step links config curl d (on_callback links config curl c d)
  mixed_woken :
      (gen : ℕ) (d : Private) → Step links config curl d (mixed_delay_over links config curl gen d)
  reconnect_woken :
      (during : List Callback) (gen : ℕ) (url : Bytes) (d e : Private)
      → reconnect_delay_over links config curl during gen url d ≡ some e
      → Step links config curl d e
  ping_woken :
      (gen now : ℕ) (d : Private)
      → Step links config curl d (ping_overdue links config curl gen now d)
  wait_woken :
      (during : List Callback) (gen : ℕ) (d : Private)
      → Step links config curl d (disconnect_wait_over links config curl during gen d)
  answered :
      (during : List Callback) (id : ℕ) (d : Private)
      → Step links config curl d (maybe_close_after_response links config curl during id d)
  disconnected :
      (during : List Callback) (d : Private)
      → Step links config curl d (disconnect links config curl during d)
  requested :
      (req : SignalRequest) (important : Bool) (d : Private)
      → Step links config curl d (send_request links d req important).0
  kept :
      (req : SignalRequest) (d : Private)
      → Step links config curl d (request_or_again links d req).0
  flushed : (d : Private) → Step links config curl d (flush_pending_reqs links d)

pub data Steps (links : Links) (config : Config) (curl : CurlCodes)
    : Private → Private → Type 0 where
  done : (d : Private) → Steps links config curl d d
  next :
      {d e f : Private}
      → Step links config curl d e
      → Steps links config curl e f
      → Steps links config curl d f
