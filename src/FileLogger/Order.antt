-- ===== src/FileLogger/Order.antt =====
-- The order of the lines (FileLogger.cpp: WorkerLoop, EnqueueWrite and write), as long as a file is open.
use bff_rtc_base.Base.{
  ◌≡◌, refl, sym, ap, ◌∙◌, ℕ, Bool, List, [], ◌∷◌, ◌++◌, append_assoc, append-nil, Option, none,
  some, Bytes, if◌then◌else◌, ◌==◌, nat_eq, if-true, if-cases, beq_self, true≢false,
}
use bff_rtc_base.FileLogger.{
  Logger, write_to, take_front, worker_takes, put, worker_writes, enqueue_write, is_open, write,
}

-- The bytes of a file.
unfoldable pub content : ℕ → List (ℕ × Bytes) → Bytes
content file [] = []
content file ((f, text) ∷ written) =
    if f == file then content file written ++ text else content file written

abbrev pub flat : List Bytes → Bytes
flat [] = []
flat (text ∷ texts) = text ++ flat texts

abbrev pub flying : Option (Bytes × Option ℕ) → Bytes
flying none = []
flying (some (message, file)) = message

-- What the file has and will have.
abbrev pub stream_of : ℕ → Logger → Bytes
stream_of file s = content file s.written ++ (flying s.in_flight ++ flat s.queue)

-- A line is written by a caller, taken by the worker, or written by it.
pub data LogStep : Type 0 where
  writes : (text : Bytes) → LogStep
  takes puts : LogStep

unfoldable pub log_steps : List LogStep → Logger → Logger
unfolding write worker_takes worker_writes
log_steps [] s = s
log_steps (LogStep.writes text ∷ steps) s = log_steps steps (write text s).0
log_steps (LogStep.takes ∷ steps) s = log_steps steps (worker_takes s)
log_steps (LogStep.puts ∷ steps) s = log_steps steps (worker_writes s)

-- The abstract view: the texts one after the other.
unfoldable pub texts_of : List LogStep → Bytes
texts_of [] = []
texts_of (LogStep.writes text ∷ steps) = text ++ texts_of steps
texts_of (LogStep.takes ∷ steps) = texts_of steps
texts_of (LogStep.puts ∷ steps) = texts_of steps

-- The file is open, and the worker holds nothing for another one.
abbrev pub FliesTo : ℕ → Option (Bytes × Option ℕ) → Type 0
FliesTo file none = Unit
FliesTo file (some (message, to)) = to ≡ some file

pub record IsLogging (file : ℕ) (s : Logger) : Type 0 where
  pub open_ : s.file ≡ some file
  pub flies : FliesTo file s.in_flight

abbrev stream_at : ℕ → List (ℕ × Bytes) → Option (Bytes × Option ℕ) → List Bytes → Bytes
stream_at file written in_flight queue = content file written ++ (flying in_flight ++ flat queue)

pub record IsWritten (file : ℕ) (message : Bytes) (s t : Logger) : Type 0 where
  pub text : content file t.written ≡ content file s.written ++ message
  pub queue : t.queue ≡ s.queue
  pub open_ : t.file ≡ s.file
  pub pending : t.pending_logs ≡ s.pending_logs

pub write_to-IsWritten :
    (file : ℕ) (message : Bytes) (s : Logger)
    → IsWritten file message s (write_to (some file) message s)
unfolding content
write_to-IsWritten file [] s = record {
  text = sym (append-nil (content file s.written));
  queue = refl;
  open_ = refl;
  pending = refl;
}
write_to-IsWritten file (x ∷ message) s = record {
  text = if-true _ _ (beq_self file);
  queue = refl;
  open_ = refl;
  pending = refl;
}

flat-append : (texts : List Bytes) (text : Bytes) → flat (texts ++ text ∷ []) ≡ flat texts ++ text
flat-append [] text = append-nil text
flat-append (t ∷ texts) text =
    ap (λ x. t ++ x) (flat-append texts text) ∙ sym (append_assoc t (flat texts) text)

-- A step keeps the stream, or adds `text` at its end.
pub record Grows (file : ℕ) (text : Bytes) (s t : Logger) : Type 0 where
  pub stream : stream_of file t ≡ stream_of file s ++ text
  pub logging : IsLogging file t

pub same : (file : ℕ) (s : Logger) → IsLogging file s → Grows file [] s s
same file s logging = record { stream = sym (append-nil (stream_of file s)); logging = logging }

take_front-Grows :
    (file : ℕ) (in_flight : Option (Bytes × Option ℕ)) (queue : List Bytes) (s : Logger)
    → s.in_flight ≡ in_flight
    → s.queue ≡ queue
    → IsLogging file s
    → Grows file [] s (take_front in_flight queue s)
take_front-Grows file none (message ∷ queue) s h q logging = record {
  stream =
      ap (stream_at file s.written none) (sym q)
      ∙ ap (λ f. stream_at file s.written f s.queue) (sym h)
      ∙ sym (append-nil (stream_of file s));
  logging = record { open_ = logging.open_; flies = logging.open_ };
}
take_front-Grows file none [] s h q logging = same file s logging
take_front-Grows file (some f) [] s h q logging = same file s logging
take_front-Grows file (some f) (message ∷ queue) s h q logging = same file s logging

put-Grows :
    (file : ℕ) (in_flight : Option (Bytes × Option ℕ)) (s : Logger)
    → s.in_flight ≡ in_flight
    → FliesTo file in_flight
    → IsLogging file s
    → Grows file [] s (put in_flight s)
put-Grows file none s h flies logging = same file s logging
put-Grows file (some (message, to)) s h flies logging =
    let w = write_to-IsWritten file message s in
    let there : write_to to message s ≡ write_to (some file) message s =
      ap (λ o. write_to o message s) flies in
    record {
      stream =
          ap (λ (t : Logger). content file t.written ++ flat t.queue) there
          ∙ ap (λ x. x ++ flat (write_to (some file) message s).queue) w.text
          ∙ ap (λ q. (content file s.written ++ message) ++ flat q) w.queue
          ∙ append_assoc (content file s.written) message (flat s.queue)
          ∙ ap (λ f. stream_at file s.written f s.queue) (sym h)
          ∙ sym (append-nil (stream_of file s));
      logging = record {
        open_ = ap (λ (t : Logger). t.file) there ∙ w.open_ ∙ logging.open_;
        flies = tt;
      };
    }

pub enqueue_write-Grows :
    (file : ℕ) (text : Bytes) (s : Logger)
    → IsLogging file s
    → Grows file text s (enqueue_write text s)
unfolding enqueue_write
enqueue_write-Grows file text s logging = record {
  stream =
      ap (λ x. content file s.written ++ (flying s.in_flight ++ x)) (flat-append s.queue text)
      ∙ ap (λ x. content file s.written ++ x)
          (sym (append_assoc (flying s.in_flight) (flat s.queue) text))
      ∙ sym (append_assoc (content file s.written) (flying s.in_flight ++ flat s.queue) text);
  logging = record { open_ = logging.open_; flies = logging.flies };
}

pub write-Grows :
    (file : ℕ) (text : Bytes) (s : Logger) → IsLogging file s → Grows file text s (write text s).0
unfolding write
write-Grows file [] s logging = same file s logging
write-Grows file (x ∷ text) s logging =
    if-cases (λ (r : Logger × Bool). Grows file (x ∷ text) s r.0) (is_open s.file)
      (λ _. enqueue_write-Grows file (x ∷ text) s logging)
      (λ h. absurd (true≢false (sym (ap is_open logging.open_) ∙ h)))

-- While a file is open, its content, followed by what the worker holds and by the queue, is what it
-- was, followed by all texts that were written since, in their order: no line is lost, doubled or
-- reordered, however callers and the worker take turns.
pub log_steps-stream :
    (file : ℕ) (steps : List LogStep) (s : Logger)
    → IsLogging file s
    → stream_of file (log_steps steps s) ≡ stream_of file s ++ texts_of steps
unfolding log_steps texts_of worker_takes worker_writes
log_steps-stream file [] s logging = sym (append-nil (stream_of file s))
log_steps-stream file (LogStep.writes text ∷ steps) s logging =
    let g = write-Grows file text s logging in
    log_steps-stream file steps (write text s).0 g.logging
    ∙ ap (λ x. x ++ texts_of steps) g.stream
    ∙ append_assoc (stream_of file s) text (texts_of steps)
log_steps-stream file (LogStep.takes ∷ steps) s logging =
    let g = take_front-Grows file s.in_flight s.queue s refl refl logging in
    log_steps-stream file steps (worker_takes s) g.logging
    ∙ ap (λ x. x ++ texts_of steps) (g.stream ∙ append-nil (stream_of file s))
log_steps-stream file (LogStep.puts ∷ steps) s logging =
    let g = put-Grows file s.in_flight s refl logging.flies logging in
    log_steps-stream file steps (worker_writes s) g.logging
    ∙ ap (λ x. x ++ texts_of steps) (g.stream ∙ append-nil (stream_of file s))
