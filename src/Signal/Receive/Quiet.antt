-- ===== src/Signal/Receive/Quiet.antt =====
-- What may happen to a connection between two calls of `connect`, the responses of the server and
-- the calls of `beginConnect` that are on their way included.
use bff_rtc_base.Base.{
  suc, sym, ◌∙◌, false, arith, true≢false, ℕ, Bool, true, ◌≡◌, refl, ap, ◌||◌, not, ◌&&◌, Option,
  none, some, Bytes, ℤ, pos, List, if-both, if◌then◌else◌, contains, int_eq, nat_eq, ◌==◌,
}
use bff_rtc_base.Url.{Hosts}
use bff_rtc_base.Signal.Config.{Config, RtcError}
use bff_rtc_base.Signal.Race.{Leg, is_leg}
use bff_rtc_base.Signal.State.{Private, Notice}
use bff_rtc_base.Signal.Links.{Links, CurlCodes, Callback}
use bff_rtc_base.Signal.Connection.{is_token_code, set_life}
use bff_rtc_base.Signal.Connection.Closing.{close_all_async-KeptClosing}
use bff_rtc_base.Signal.Connect.{
  may_reconnect, begin_connect, connect_best_url, disconnect, answers_leave,
  maybe_close_after_response,
}
use bff_rtc_base.Signal.Connect.Steps.{Step}
use bff_rtc_base.Signal.Connect.Quiet.{
  opens, IsQuiet, IsQuiet-frame, IsQuiet-Kept, IsQuiet-close_in_handler, IsQuiet-answer,
  IsQuiet-Step, disconnect-IsQuiet,
}
use bff_rtc_base.Signal.Response.{Response, Codec}
use bff_rtc_base.Signal.Receive.{
  Moment, Verdict, last_code_set, forget_request, reset_ping, reject, take_code, take_reply,
  after_reply, handle_response, handle_unpacked, on_transport_recv,
}
use bff_rtc_base.Signal.Receive.Kept.{KeptReply, tell-Kept, take_reply-Kept}
use bff_rtc_base.Base.{to_i32}

-- The number counts the calls of `beginConnect` that are on their way: threads that wait to
-- reconnect and have read their conditions, and calls of `connectBestUrl` that wait for their answer.
pub data Course (links : Links) (config : Config) (curl : CurlCodes) (codec : Codec)
    : Private → ℕ → Private → Type 0 where
  start : (k : ℕ) (d : Private) → Course links config curl codec d k d
  step :
      {k : ℕ} {d e f : Private}
      → Step links config curl d e
      → Course links config curl codec e k f
      → Course links config curl codec d k f
  received :
      {k : ℕ} {f : Private} (m : Moment) (leg : Leg) (data_ : Bytes) (binary : Bool) (d : Private)
      → Course links config curl codec
          (on_transport_recv links config curl codec m leg data_ binary d)
          k
          f
      → Course links config curl codec d k f
  passed :
      {k : ℕ} {f : Private} (gen : ℕ) (url : Bytes) (d : Private)
      → may_reconnect links config curl gen url d ≡ true
      → Course links config curl codec d (suc k) f
      → Course links config curl codec d k f
  begun :
      {k : ℕ} {f : Private} (during : List Callback) (url : Bytes) (d e : Private) (ok : Bool)
      → begin_connect links config curl during url d ≡ some (e, ok)
      → Course links config curl codec e k f
      → Course links config curl codec d (suc k) f
  best_url_found :
      {k : ℕ} {f : Private} (during : List Callback) (best_url : Bytes) (hosts : Hosts)
      (d e : Private)
      → connect_best_url links config curl during best_url hosts d ≡ some e
      → Course links config curl codec e k f
      → Course links config curl codec d (suc k) f

module _ (links : Links) (config : Config) (curl : CurlCodes) (codec : Codec) {n : ℕ} where
  abbrev replies : KeptReply (IsQuiet n)
  replies = record {
    says = (IsQuiet-Kept links config curl).closing.effect;
    frame = λ d e l t q. IsQuiet-frame d e (ap (λ life. life.user_closed) l) t q;
  }

  reject-IsQuiet :
      (during : List Callback) (channel : ℤ) (error : RtcError) (d : Private)
      → IsQuiet n d
      → IsQuiet n (reject links config curl codec during channel error d)
  unfolding reject
  reject-IsQuiet during channel error d q =
      if-both (IsQuiet n) d.life.disconnect_closing
        (IsQuiet-close_in_handler links config curl during d q)
        (tell-Kept replies channel (Notice.on_error error) _
          (close_all_async-KeptClosing (IsQuiet-Kept links config curl).closing d q))

  take_code-IsQuiet :
      (during : List Callback) (id : ℕ) (channel code : ℤ) (d : Private)
      → IsQuiet n d
      → IsQuiet n (take_code links config curl codec during id channel code d).0
  unfolding take_code
  take_code-IsQuiet during id channel code d q =
      let P = λ (x : Private × Verdict). IsQuiet n x.0 in
      let coded : IsQuiet n (last_code_set code d) =
        IsQuiet-frame d (last_code_set code d) refl refl q in
      if-both P (code == pos 200) coded (
        if-both P (is_token_code code) (reject-IsQuiet during channel RtcError.token _ coded) (
          if-both P (contains id d.requests.important_reqs)
            (reject-IsQuiet during channel RtcError.signal_failed _
              (IsQuiet-frame _ (forget_request id (last_code_set code d)) refl refl coded))
            coded))

  after_reply-IsQuiet :
      (during : List Callback) (id : ℕ) (x : Private × Verdict)
      → IsQuiet n x.0
      → IsQuiet n (after_reply links config curl codec during id x)
  unfolding after_reply
  after_reply-IsQuiet during id (d, Verdict.stops) q = q
  after_reply-IsQuiet during id (d, Verdict.goes_on reset) q =
      let settled = maybe_close_after_response links config curl during id (forget_request id d) in
      let s : IsQuiet n settled =
        IsQuiet-answer links config curl during id (forget_request id d)
          (IsQuiet-frame d (forget_request id d) refl refl q) in
      let renewed = set_life settled (record settled.life { reconnect_count = 0 }) in
      if-both (IsQuiet n) (reset && not (answers_leave links config curl id (forget_request id d)))
        (IsQuiet-frame settled renewed refl refl s) s

  handle_response-IsQuiet :
      (m : Moment) (r : Response) (d : Private)
      → IsQuiet n d
      → IsQuiet n (handle_response links config curl codec m r d)
  unfolding handle_response
  handle_response-IsQuiet m r d q =
      let heard = reset_ping m.steady_ms d in
      let h : IsQuiet n heard = IsQuiet-frame d heard refl refl q in
      after_reply-IsQuiet m.during r.id
        (take_reply links config curl codec m r (to_i32 r.channel) r.reply heard)
        (take_reply-Kept replies links config curl codec (λ x. IsQuiet n x.0) (λ d p. p) m r
          (to_i32 r.channel) r.reply heard
          (λ code. take_code-IsQuiet m.during r.id (to_i32 r.channel) code heard h) h)

  handle_unpacked-IsQuiet :
      (m : Moment) (r : Option Response) (d : Private)
      → IsQuiet n d
      → IsQuiet n (handle_unpacked links config curl codec m r d)
  handle_unpacked-IsQuiet m none d q = q
  handle_unpacked-IsQuiet m (some r) d q =
      if-both (IsQuiet n) d.life.owner (handle_response-IsQuiet m r d q) q

  on_transport_recv-IsQuiet :
      (m : Moment) (leg : Leg) (data_ : Bytes) (binary : Bool) (d : Private)
      → IsQuiet n d
      → IsQuiet n (on_transport_recv links config curl codec m leg data_ binary d)
  unfolding on_transport_recv
  on_transport_recv-IsQuiet m leg data_ binary d q =
      if-both (IsQuiet n) (not (is_leg d.race.primary_leg leg) || not d.race.session_open) q (
        handle_unpacked-IsQuiet m
          (if binary then codec.unpack_response data_ else codec.response_of_json data_) d q)

  passes_none :
      (gen : ℕ) (url : Bytes) (d : Private)
      → IsQuiet n d
      → may_reconnect links config curl gen url d ≡ false
  passes_none gen url d q = ground (arith, q.closed)

  IsQuiet-Course :
      {d e : Private} {k : ℕ}
      → Course links config curl codec d k e
      → k ≡ 0
      → IsQuiet n d
      → IsQuiet n e
  IsQuiet-Course (Course.start k d) none_ q = q
  IsQuiet-Course (Course.step s c) none_ q =
      IsQuiet-Course c none_ (IsQuiet-Step links config curl s q)
  IsQuiet-Course (Course.received m leg data_ binary d c) none_ q =
      IsQuiet-Course c none_ (on_transport_recv-IsQuiet m leg data_ binary d q)
  IsQuiet-Course (Course.passed gen url d may c) none_ q =
      absurd (true≢false (sym may ∙ passes_none gen url d q))
  IsQuiet-Course (Course.begun during url d e ok h c) none_ q = absurd (omega arith)
  IsQuiet-Course (Course.best_url_found during best_url hosts d e h c) none_ q =
      absurd (omega arith)

-- When `disconnect` is called while no other handler of the connection runs, no reconnecting thread is
-- past its conditions and no `connectBestUrl` waits for its answer, then from there on, whatever the
-- transports call back, threads wake up, requests are made and responses of the server arrive, one
-- after the other in any order, no transport is opened and the connection stays closed, as long as
-- the application does not connect again.
pub disconnect_stays_closed :
    (links : Links) (config : Config) (curl : CurlCodes) (codec : Codec) (during : List Callback)
    (d e : Private)
    → Course links config curl codec (disconnect links config curl during d) 0 e
    → (e.life.user_closed ≡ true) × (opens e.trace ≡ opens d.trace)
disconnect_stays_closed links config curl codec during d e c =
    let q =
      IsQuiet-Course links config curl codec c refl
        (disconnect-IsQuiet links config curl during d refl) in
    (q.closed, q.count)
