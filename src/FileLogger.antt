-- ===== src/FileLogger.antt =====
-- FileLogger.cpp: the queue of lines, the worker that writes them, the file, and the settings of the
-- clock and of the retention. Files are numbers; lines come with their time, level and thread as the
-- code puts them together. The second lock of `write`, which enqueues, follows the first one with
-- nothing between; so do the locks of `newLog`.
pub mod Meta
pub mod Order
pub mod Early
use bff_rtc_base.Base.{
  ℕ, Bool, true, false, not, ◌||◌, List, [], ◌∷◌, ◌++◌, Option, none, some, Bytes, if◌then◌else◌,
  is_empty, ◌==◌, nat_eq, ℤ, pos, leb_ℤ, codes,
}

-- `meta_files` has the text of each file of metadata that can be read, by its path.
-- `in_flight` is what the worker has taken and not written yet, with the file it saw, `stop_flight`
-- the same of `stop`; `written` are the writes, the newest first.
pub record Logger : Type 0 where
  pub queue : List Bytes
  pub in_flight : Option (Bytes × Option ℕ)
  pub stop_flight : Option (Bytes × Option ℕ)
  pub file : Option ℕ
  pub log_dir : Bytes
  pub log_name : Bytes
  pub meta_path : Bytes
  pub meta_files : List (Bytes × Bytes)
  pub pending_logs : Bytes
  pub retention_seconds : ℤ
  pub clock_offset : ℤ
  pub written : List (ℕ × Bytes)

abbrev pub write_to : Option ℕ → Bytes → Logger → Logger
write_to none message s = s
write_to (some file) message s =
    if is_empty message then s else record s { written = (file, message) ∷ s.written }

abbrev take_front : Option (Bytes × Option ℕ) → List Bytes → Logger → Logger
take_front none (message ∷ queue) s = record s { queue = queue; in_flight = some (message, s.file) }
take_front _ _ s = s

-- The worker's loop, up to the unlock.
unfoldable pub worker_takes : Logger → Logger
worker_takes s = take_front s.in_flight s.queue s

abbrev put : Option (Bytes × Option ℕ) → Logger → Logger
put none s = s
put (some (message, file)) s = record (write_to file message s) { in_flight = none }

-- From the unlock to the next lock.
unfoldable pub worker_writes : Logger → Logger
worker_writes s = put s.in_flight s

unfoldable pub enqueue_write : Bytes → Logger → Logger
enqueue_write message s = record s { queue = s.queue ++ message ∷ [] }

abbrev is_open : Option ℕ → Bool
is_open none = false
is_open (some file) = true

-- `write`, and its result.
unfoldable pub write : Bytes → Logger → Logger × Bool
unfolding enqueue_write
write text s =
    if is_empty text
    then (s, true)
    else if is_open s.file
    then (enqueue_write text s, true)
    else (s, false)

abbrev keep_early : Bytes → Logger × Bool → Logger
keep_early line (s, true) = s
keep_early line (s, false) = record s { pending_logs = s.pending_logs ++ line }

-- `log`, for the line that it puts together.
unfoldable pub log : Bytes → Logger → Logger
unfolding write
log line s = keep_early line (write line s)

-- The rounds of `stop`, beside the worker: up to the unlock, while there is a line and a file; from
-- the unlock to the next lock; and behind the loop. A line that the worker still holds is written
-- when it likes, to a file that may be closed by then.
abbrev stop_front : List Bytes → Logger → Logger
stop_front [] s = s
stop_front (message ∷ queue) s =
    if is_open s.file then record s { queue = queue; stop_flight = some (message, s.file) } else s

unfoldable pub stop_takes : Logger → Logger
stop_takes s = stop_front s.queue s

abbrev stop_put : Option (Bytes × Option ℕ) → Logger → Logger
stop_put none s = s
stop_put (some (message, file)) s = record (write_to file message s) { stop_flight = none }

unfoldable pub stop_writes : Logger → Logger
stop_writes s = stop_put s.stop_flight s

abbrev pub stop_closes : Logger → Logger
stop_closes s = record s { file = none }

-- `/` of two paths.
abbrev join_path : Bytes → Bytes → Bytes
join_path [] name = name
join_path (c ∷ []) name = if c == 47 then c ∷ name else c ∷ 47 ∷ name
join_path (c ∷ d ∷ dir) name = c ∷ join_path (d ∷ dir) name

abbrev meta_file_name : Bytes
meta_file_name = codes "log_meta.json"

-- What is written to the other files.
unfoldable pub erase_file : ℕ → List (ℕ × Bytes) → List (ℕ × Bytes)
erase_file file [] = []
erase_file file ((f, text) ∷ written) =
    let rest = erase_file file written in if f == file then rest else (f, text) ∷ rest

-- The file is opened, which empties it, and put in the place of the old one under the lock.
abbrev pub swap_file : (file : ℕ) → (log_dir log_name : Bytes) → Logger → Logger
swap_file file log_dir log_name s = record s {
  file = some file;
  log_dir = log_dir;
  log_name = log_name;
  meta_path = join_path log_dir meta_file_name;
  pending_logs = [];
  written = erase_file file s.written;
}

abbrev send_early : Bytes → Logger → Logger
send_early pending s = if is_empty pending then s else enqueue_write pending s

-- `newLog`, and its result: `file` is the new file, none where the directory or the file cannot be
-- made; `date` and `device` are the first lines, the device's empty where it is not known.
unfoldable pub new_log :
    (user_id log_dir log_name : Bytes)
    → (file : Option ℕ) → (date device : Bytes) → Logger
    → Logger × Bool
unfolding enqueue_write log
new_log user_id log_dir log_name none date device s = (s, false)
new_log user_id log_dir log_name (some file) date device s =
    let swapped = send_early s.pending_logs (swap_file file log_dir log_name s) in
    let dated = log date swapped in
    if is_empty user_id || is_empty log_dir
    then (s, false)
    else (if is_empty device then dated else log device dated, true)

abbrev pub set_clock_offset : ℤ → Logger → Logger
set_clock_offset milliseconds s = record s { clock_offset = milliseconds }

abbrev pub set_retention_seconds : ℤ → Logger → Logger
set_retention_seconds seconds s = record s {
  retention_seconds = if leb_ℤ (pos 1) seconds then seconds else pos 172800;
}
