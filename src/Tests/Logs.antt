-- ===== src/Tests/Logs.antt =====
-- A log that is opened after its first lines.
use bff_rtc_base.Base.{
  Bytes, true, ◌==◌, ℕ, Option, if◌then◌else◌, bytes_eq, bytes_beq, lookup, insert_or_assign,
  erase_key, ◌≡◌, refl, false, List, [], ◌∷◌, ◌++◌, none, some, codes, pos, nat_eq,
}
use bff_rtc_base.FileLogger.{
  Logger, write, stop_takes, stop_writes, stop_closes, new_log, worker_takes, worker_writes,
  set_retention_seconds, set_clock_offset,
}
use bff_rtc_base.FileLogger.Meta.{
  MetaEntry, MetaGroup, MetaDocument, LogGroup, DirEntry, load_meta, assign_entry, erase_entry,
  with_group, meta_get, meta_set_current, meta_remove, get_room, files, sort_entries,
}
use bff_rtc_base.FileLogger.Meta.Kept.{meta_get-meta_set_current, meta_get-meta_remove}
use bff_rtc_base.FileLogger.Order.{
  LogStep, flat, IsLogging, log_steps, texts_of, content, stream_of, log_steps-stream,
}
use bff_rtc_base.FileLogger.Early.{log_all, new_log-early}

abbrev fresh : Logger
fresh = record {
  queue = [];
  in_flight = none;
  stop_flight = none;
  file = none;
  log_dir = [];
  log_name = [];
  meta_path = [];
  meta_files = [];
  pending_logs = [];
  retention_seconds = pos 172800;
  clock_offset = pos 0;
  written = [];
}

abbrev open_log : Logger
open_log = record fresh { file = some 7 }

abbrev turns : List LogStep
turns =
    LogStep.writes (codes "ab")
    ∷ LogStep.takes
    ∷ LogStep.writes (codes "cd")
    ∷ LogStep.puts
    ∷ LogStep.takes
    ∷ []

log_steps-stream_example :
    stream_of 7 (log_steps turns open_log) ≡ stream_of 7 open_log ++ texts_of turns
log_steps-stream_example = log_steps-stream 7 turns open_log (record { open_ = refl; flies = tt })

turns-content : content 7 (log_steps turns open_log).written ≡ codes "ab"
unfolding log_steps content write worker_takes worker_writes
turns-content = refl

new_log-early_example :
    let t =
      (new_log
        (codes "u")
        (codes "d")
        (codes "n")
        (some 7)
        (codes "Date")
        (codes "Box")
        (log_all (codes "ab" ∷ codes "cd" ∷ []) fresh)).0 in
    (stream_of 7 t
      ≡ flat fresh.queue
        ++ ((fresh.pending_logs ++ flat (codes "ab" ∷ codes "cd" ∷ []))
            ++ (codes "Date" ++ codes "Box")))
    × IsLogging 7 t
new_log-early_example =
    new_log-early 117 100 [] [] (codes "n") 7 (codes "Date") (codes "Box")
      (codes "ab" ∷ codes "cd" ∷ []) fresh (record { no_file = refl; nothing = refl })

-- The worker has taken "ab"; `stop` writes "cd" and closes the file before the worker writes it.
stop_overtakes :
    (worker_writes (
      stop_closes (
        stop_writes (
          stop_takes (
            log_steps
              (LogStep.writes (codes "ab") ∷ LogStep.takes ∷ LogStep.writes (codes "cd") ∷ [])
              open_log))))).written
    ≡ (7, codes "ab") ∷ (7, codes "cd") ∷ []
unfolding log_steps write stop_takes stop_writes worker_takes worker_writes
stop_overtakes = refl

refused : (new_log [] (codes "d") (codes "n") (some 7) [] [] fresh).1 ≡ false
unfolding new_log
refused = refl

retention_default : (set_retention_seconds (pos 0) fresh).retention_seconds ≡ pos 172800
retention_default = refl

offset_kept : (set_clock_offset (pos 5) fresh).clock_offset ≡ pos 5
offset_kept = refl

-- A log "n" in a directory whose metadata knows nothing yet; the parser answers one document.
abbrev named : Logger
named = record open_log {
  log_dir = codes "d";
  log_name = codes "n";
  meta_path = codes "d/log_meta.json";
}

abbrev braces : MetaDocument → Bytes
braces j = codes "{}"

abbrev of_room : MetaDocument
of_room = (codes "log_rooms", MetaGroup.entries ((codes "n", MetaEntry.text (codes "r")) ∷ [])) ∷ []

abbrev parse_room : Bytes → Option MetaDocument
parse_room raw = some of_room

meta_get-meta_set_current_example :
    meta_get parse_room braces LogGroup.log_rooms
      (codes "n")
      (meta_set_current parse_room braces true LogGroup.log_rooms (codes "r") named)
    ≡ codes "r"
unfolding lookup insert_or_assign load_meta assign_entry bytes_beq
meta_get-meta_set_current_example =
    meta_get-meta_set_current parse_room braces LogGroup.log_rooms LogGroup.log_rooms (codes "r")
      (codes "n") named refl refl refl refl refl

-- The parser of the metadata of `n`, and of what is left once it is erased.
abbrev knows_room : Logger
knows_room = record named { meta_files = (codes "d/log_meta.json", codes "r") ∷ [] }

abbrev left : MetaDocument
left = (codes "log_rooms", MetaGroup.entries []) ∷ (codes "log_servers", MetaGroup.entries []) ∷ []

abbrev parse_both : Bytes → Option MetaDocument
parse_both raw = if raw == codes "{}" then some left else some of_room

room_known : get_room parse_both braces (codes "n") knows_room ≡ codes "r"
unfolding meta_get load_meta lookup with_group insert_or_assign bytes_beq
room_known = refl

meta_get-meta_remove_example :
    meta_get parse_both braces LogGroup.log_rooms
      (codes "n")
      (meta_remove parse_both braces true (codes "n") knows_room)
    ≡ []
unfolding lookup insert_or_assign load_meta erase_entry erase_key with_group bytes_beq
meta_get-meta_remove_example =
    meta_get-meta_remove parse_both braces LogGroup.log_rooms (codes "n") (codes "n") knows_room
      refl refl refl refl

abbrev log_at : Bytes → ℕ → DirEntry
log_at name age = record {
  path = name;
  filename = name;
  extension = codes ".log";
  is_regular_file = true;
  age = some (pos age);
}

-- A log of two days stays, one second more is too much.
files_kept :
    (files parse_room braces true
      (log_at (codes "a.log") 172800 ∷ log_at (codes "b.log") 172801 ∷ [])
      named).1
    ≡ log_at (codes "a.log") 172800 ∷ []
unfolding files sort_entries bytes_beq
files_kept = refl
