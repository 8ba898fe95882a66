-- ===== src/Signal/Connect/Reconnects.antt =====
-- How often the connection is tried again.
use mathlib.Core.Path.{subst}
use bff_rtc_base.Base.{
  ◌⊎◌, ℕ, suc, Bool, true, ◌≡◌, refl, sym, ◌∙◌, inl, inr, List, [], ◌∷◌, some, Bytes, ℤ, arith,
  ◌||◌, if-true, map-some, ap, if-both, true≢false, false,
}
use bff_rtc_base.Url.Token.{replace_token_query}
use bff_rtc_base.Signal.Config.{Config, is_mixed}
use bff_rtc_base.Signal.Race.{fallback_address}
use bff_rtc_base.Signal.State.{Private, Effect, reconnect_thread, emit}
use bff_rtc_base.Signal.Links.{Links, CurlCodes, Callback}
use bff_rtc_base.Signal.Connection.{schedule_reconnect, start_tcp_fallback, stop_keepalive}
use bff_rtc_base.Signal.Connection.Closing.{is_plain}
use bff_rtc_base.Signal.Connection.Kept.{Kept}
use bff_rtc_base.Signal.Connect.{
  retire, prepare_connect, start_opening, finish_opening, open_transports, schedule_tcp_fallback,
  begin_connect,
}
use bff_rtc_base.Signal.Connect.Kept.{close_all_joining-Kept}

-- How many threads were started that wait to connect again.
unfoldable pub reconnects : List Effect → ℕ
reconnects [] = 0
reconnects (reconnect_thread gen delay url ∷ trace) = suc (reconnects trace)
reconnects (e ∷ trace) = reconnects trace

pub reconnects-plain :
    (e : Effect) (trace : List Effect)
    → is_plain e ≡ true
    → reconnects (e ∷ trace) ≡ reconnects trace
unfolding reconnects
reconnects-plain (Effect.opened leg url sni) trace h = refl
reconnects-plain (Effect.connect_timeout leg ms) trace h = refl
reconnects-plain (Effect.closed leg) trace h = refl
reconnects-plain (Effect.closed_async leg) trace h = refl
reconnects-plain (Effect.joined_itself leg) trace h = refl
reconnects-plain (Effect.sent leg payload binary) trace h = refl
reconnects-plain (Effect.handed req) trace h = refl
reconnects-plain (Effect.mixed_thread gen ms) trace h = refl
reconnects-plain (reconnect_thread gen ms url) trace h = cc
reconnects-plain (Effect.keepalive_thread gen) trace h = refl
reconnects-plain (Effect.disconnect_thread gen ms) trace h = refl
reconnects-plain (Effect.nodes_listed nodes port client_ip) trace h = refl
reconnects-plain (Effect.dict_set dict) trace h = refl
reconnects-plain (Effect.notified c n) trace h = refl

abbrev pub Counts : ℕ → ℕ → Private → Type 0
Counts n c d = (reconnects d.trace ≡ n) × (d.life.reconnect_count ≡ c)

-- Reconnecting is suppressed; `n` threads wait or have waited, and `c` is the count.
pub record IsSuppressed (n c : ℕ) (d : Private) : Type 0 where
  pub suppressed : d.life.suppress_reconnect ≡ true
  pub threads : reconnects d.trace ≡ n
  pub count : d.life.reconnect_count ≡ c

schedule_reconnect-suppressed :
    (config : Config) (delay : ℤ) (d : Private)
    → d.life.suppress_reconnect ≡ true
    → schedule_reconnect config delay d ≡ d
unfolding schedule_reconnect
schedule_reconnect-suppressed config delay d h =
    if-true {b = d.life.user_closed || d.life.suppress_reconnect} _ _ (ground arith)

calm-suppressed : {old new : Bool} → (new ≡ old) ⊎ (new ≡ true) → old ≡ true → new ≡ true
calm-suppressed (inl e) h = e ∙ h
calm-suppressed (inr e) h = e

module _ (links : Links) (config : Config) (curl : CurlCodes) {n c : ℕ} where
  IsSuppressed-fallback :
      (d : Private) → IsSuppressed n c d → IsSuppressed n c (start_tcp_fallback links config d)
  unfolding start_tcp_fallback fallback_address reconnects emit
  IsSuppressed-fallback d s = record {
    suppressed = ground arith;
    threads = ground arith;
    count = ground arith;
  }

  IsSuppressed-Kept : Kept links config (IsSuppressed n c)
  unfolding emit
  IsSuppressed-Kept = record {
    closing = record {
      race = λ d r s. record { suppressed = s.suppressed; threads = s.threads; count = s.count };
      life = λ d l calm s. record {
        suppressed = calm-suppressed calm.3 s.suppressed;
        threads = s.threads;
        count = calm.2 ∙ s.count;
      };
      effect = λ e d h s. record {
        suppressed = s.suppressed;
        threads = reconnects-plain e d.trace h ∙ s.threads;
        count = s.count;
      };
    };
    fallback = IsSuppressed-fallback;
    reconnect = λ delay d s.
        subst (IsSuppressed n c) (sym (schedule_reconnect-suppressed config delay d s.suppressed))
          s;
  }

  pub prepare_connect-reconnects :
      (during : List Callback) (d : Private)
      → Counts n c d
      → Counts n c (prepare_connect links config curl during d)
  unfolding prepare_connect stop_keepalive
  prepare_connect-reconnects during d (t, k) =
      let s =
        close_all_joining-Kept curl IsSuppressed-Kept during (retire links config curl d)
          (record { suppressed = refl; threads = t; count = k }) in
      (s.threads, s.count)

  pub start_opening-reconnects :
      (url sni : Bytes) (d : Private)
      → Counts n c d
      → Counts n c (start_opening links config curl url sni d)
  unfolding reconnects emit
  start_opening-reconnects url sni d k = k

  pub schedule_tcp_fallback-reconnects :
      (d : Private) → Counts n c d → Counts n c (schedule_tcp_fallback links config curl d)
  unfolding schedule_tcp_fallback start_tcp_fallback fallback_address reconnects emit
  schedule_tcp_fallback-reconnects d (t, k) = (ground arith, ground arith)

  finish_opening-reconnects :
      (answer : Bool) (d e : Private)
      → finish_opening links config curl answer d ≡ (e, true)
      → Counts n c d
      → Counts n c e
  unfolding finish_opening
  finish_opening-reconnects true d e h k = subst (Counts n c) (ap (λ x. x.0) h) (
      if-both (Counts n c) (is_mixed config.signal.implementation)
        (schedule_tcp_fallback-reconnects d k) k)
  finish_opening-reconnects false d e h k = absurd (true≢false (sym (ap (λ x. x.1) h)))

  -- Where connecting succeeds, whatever the old transports report while they are joined, it waits for
  -- no reconnection and leaves the count of them as it was.
  pub begin_connect-reconnects :
      (during : List Callback) (url : Bytes) (d e : Private)
      → begin_connect links config curl during url d ≡ some (e, true)
      → Counts n c d
      → Counts n c e
  unfolding begin_connect open_transports
  begin_connect-reconnects during url d e h k =
      let ready = prepare_connect links config curl during d in
      let url1 = replace_token_query url ready.auth_token in
      let (sni, found, same) =
        map-some (λ sni. open_transports links config curl url1 sni ready) _ h in
      finish_opening-reconnects _ (start_opening links config curl url1 sni ready) e same
        (start_opening-reconnects url1 sni ready (prepare_connect-reconnects during d k))
