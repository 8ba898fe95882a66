-- ===== src/FileLogger/Early.antt =====
-- Lines that come before there is a file (FileLogger.cpp: newLog and log).
use bff_rtc_base.Base.{
  arith, nat_eq, ◌≡◌, refl, sym, ap, ◌∙◌, ℕ, Bool, true, false, List, [], ◌∷◌, ◌++◌, append_assoc,
  append-nil, none, some, Bytes, if◌then◌else◌, is_empty, if-cases, if-both, true≢false,
}
use mathlib.Core.Path.{subst}
use bff_rtc_base.FileLogger.{
  Logger, is_open, write, keep_early, log, erase_file, swap_file, send_early, new_log,
}
use bff_rtc_base.FileLogger.Order.{
  content, flat, flying, FliesTo, stream_of, IsLogging, Grows, same, enqueue_write-Grows,
  write-Grows,
}

unfoldable pub log_all : List Bytes → Logger → Logger
unfolding log
log_all [] s = s
log_all (line ∷ lines) s = log_all lines (log line s)

-- Without a file, and with nothing in the worker's hands.
pub record IsIdle (s : Logger) : Type 0 where
  pub no_file : s.file ≡ none
  pub nothing : s.in_flight ≡ none

-- A line is kept.
record Keeps (line : Bytes) (s t : Logger) : Type 0 where
  pending : t.pending_logs ≡ s.pending_logs ++ line
  idle : IsIdle t
  queue : t.queue ≡ s.queue

log-Keeps : (line : Bytes) (s : Logger) → IsIdle s → Keeps line s (log line s)
unfolding log write
log-Keeps [] s idle = record {
  pending = sym (append-nil s.pending_logs);
  idle = idle;
  queue = refl;
}
log-Keeps (x ∷ line) s idle =
    if-cases (λ (r : Logger × Bool). Keeps (x ∷ line) s (keep_early (x ∷ line) r)) (is_open s.file)
      (λ h. absurd (true≢false (sym h ∙ ap is_open idle.no_file)))
      (λ _. record {
        pending = refl;
        idle = record { no_file = idle.no_file; nothing = idle.nothing };
        queue = refl;
      })

log_all-Keeps :
    (lines : List Bytes) (s : Logger) → IsIdle s → Keeps (flat lines) s (log_all lines s)
unfolding log_all
log_all-Keeps [] s idle = record {
  pending = sym (append-nil s.pending_logs);
  idle = idle;
  queue = refl;
}
log_all-Keeps (line ∷ lines) s idle =
    let one = log-Keeps line s idle in
    let rest = log_all-Keeps lines (log line s) one.idle in
    record {
      pending =
          rest.pending
          ∙ ap (λ x. x ++ flat lines) one.pending
          ∙ append_assoc s.pending_logs line (flat lines);
      idle = rest.idle;
      queue = rest.queue ∙ one.queue;
    }

keep_early-open :
    (file : ℕ) (line : Bytes) (s : Logger) → IsLogging file s → (write line s).1 ≡ true
unfolding write
keep_early-open file line s logging =
    if-both (λ (r : Logger × Bool). r.1 ≡ true) (is_empty line) refl
      (if-cases (λ (r : Logger × Bool). r.1 ≡ true) (is_open s.file) (λ _. refl)
        (λ h. absurd (true≢false (sym (ap is_open logging.open_) ∙ h))))

keep_early-true : (line : Bytes) (r : Logger × Bool) → r.1 ≡ true → keep_early line r ≡ r.0
keep_early-true line (s, true) h = refl
keep_early-true line (s, false) h = absurd (true≢false (sym h))

log-Grows :
    (file : ℕ) (line : Bytes) (s : Logger) → IsLogging file s → Grows file line s (log line s)
unfolding log
log-Grows file line s logging =
    subst (Grows file line s)
      (sym (keep_early-true line (write line s) (keep_early-open file line s logging)))
      (write-Grows file line s logging)

send_early-Grows :
    (file : ℕ) (pending : Bytes) (s : Logger)
    → IsLogging file s
    → Grows file pending s (send_early pending s)
send_early-Grows file [] s logging = same file s logging
send_early-Grows file (x ∷ pending) s logging = enqueue_write-Grows file (x ∷ pending) s logging

Grows-trans :
    (file : ℕ) (a b : Bytes) (s t u : Logger)
    → Grows file a s t
    → Grows file b t u
    → Grows file (a ++ b) s u
Grows-trans file a b s t u g h = record {
  stream = h.stream ∙ ap (λ x. x ++ b) g.stream ∙ append_assoc (stream_of file s) a b;
  logging = h.logging;
}

log_some-Grows :
    (file : ℕ) (device : Bytes) (s : Logger)
    → IsLogging file s
    → Grows file device s (if is_empty device then s else log device s)
log_some-Grows file [] s logging = same file s logging
log_some-Grows file (x ∷ device) s logging = log-Grows file (x ∷ device) s logging

-- The state after `newLog`, as a function of the state before.
abbrev opened : (log_dir log_name : Bytes) → (file : ℕ) → (date device : Bytes) → Logger → Logger
opened log_dir log_name file date device s =
    let dated = log date (send_early s.pending_logs (swap_file file log_dir log_name s)) in
    if is_empty device then dated else log device dated

opened-Grows :
    (log_dir log_name : Bytes) (file : ℕ) (date device : Bytes) (s : Logger)
    → s.in_flight ≡ none
    → Grows file
        (s.pending_logs ++ (date ++ device))
        (swap_file file log_dir log_name s)
        (opened log_dir log_name file date device s)
opened-Grows log_dir log_name file date device s nothing =
    let swapped = swap_file file log_dir log_name s in
    let early = send_early s.pending_logs swapped in
    let dated = log date early in
    let g =
      send_early-Grows file s.pending_logs swapped
        (record { open_ = refl; flies = subst (FliesTo file) (sym nothing) tt }) in
    let h = log-Grows file date early g.logging in
    Grows-trans file s.pending_logs (date ++ device) swapped early _ g
      (Grows-trans file date device early dated _ h (log_some-Grows file device dated h.logging))

new_log-opened :
    (u v : ℕ) (user_id log_dir log_name : Bytes) (file : ℕ) (date device : Bytes) (s : Logger)
    → (new_log (u ∷ user_id) (v ∷ log_dir) log_name (some file) date device s).0
      ≡ opened (v ∷ log_dir) log_name file date device s
unfolding new_log
new_log-opened u v user_id log_dir log_name file date device s = refl

content-erase_file :
    (file : ℕ) (written : List (ℕ × Bytes)) → content file (erase_file file written) ≡ []
unfolding content erase_file
content-erase_file file [] = refl
content-erase_file file ((f, text) ∷ written) = ground (arith, content-erase_file file written)

-- The new file is empty, and what is in the queue is to come.
swap_file-stream :
    (file : ℕ) (log_dir log_name : Bytes) (s : Logger)
    → s.in_flight ≡ none
    → stream_of file (swap_file file log_dir log_name s) ≡ flat s.queue
swap_file-stream file log_dir log_name s nothing =
    ap (λ x. x ++ (flying s.in_flight ++ flat s.queue)) (content-erase_file file s.written)
    ∙ ap (λ f. flying f ++ flat s.queue) nothing

-- Lines that are logged before there is a file are kept. When `newLog` then opens one, with nothing
-- running beside it, what the file has and will have is what was queued before, then these lines
-- in their order, then the date and the device; and the file is open, with the worker writing to it.
pub new_log-early :
    (u v : ℕ) (user_id log_dir log_name : Bytes) (file : ℕ) (date device : Bytes)
    (lines : List Bytes) (s : Logger)
    → IsIdle s
    → let t =
        (new_log
          (u ∷ user_id)
          (v ∷ log_dir)
          log_name
          (some file)
          date
          device
          (log_all lines s)).0 in
      (stream_of file t ≡ flat s.queue ++ ((s.pending_logs ++ flat lines) ++ (date ++ device)))
      × IsLogging file t
new_log-early u v user_id log_dir log_name file date device lines s idle =
    let k = log_all-Keeps lines s idle in
    let early = log_all lines s in
    let is_opened = new_log-opened u v user_id log_dir log_name file date device early in
    let g = opened-Grows (v ∷ log_dir) log_name file date device early k.idle.nothing in
    (
      ap (stream_of file) is_opened
          ∙ g.stream
          ∙ ap (λ x. x ++ (early.pending_logs ++ (date ++ device)))
              (swap_file-stream file (v ∷ log_dir) log_name early k.idle.nothing)
          ∙ ap (λ q. flat q ++ (early.pending_logs ++ (date ++ device))) k.queue
          ∙ ap (λ x. flat s.queue ++ (x ++ (date ++ device))) k.pending,
      subst (IsLogging file) (sym is_opened) g.logging,
    )
