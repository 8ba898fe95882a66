-- ===== src/FileLogger/Meta.antt =====
-- The metadata of the log files, their list and their removal (FileLogger.cpp: the meta functions, the
-- getters and setters of room and upload server, files and remove). The parser and the printer of
-- JSON are parameters; a value that the code does not read is kept as its text.
pub mod Groups
pub mod Kept
use bff_rtc_base.Base.{
  Bool, true, false, not, ◌||◌, List, [], ◌∷◌, Option, none, some, Bytes, codes, if◌then◌else◌,
  is_empty, ◌==◌, bytes_eq, ℤ, leb_ℤ, lookup, insert_or_assign, erase_key,
}
use bff_rtc_base.FileLogger.{Logger, meta_file_name}

pub data MetaEntry : Type 0 where
  text : Bytes → MetaEntry
  other : Bytes → MetaEntry

pub data MetaGroup : Type 0 where
  entries : List (Bytes × MetaEntry) → MetaGroup
  other : Bytes → MetaGroup

abbrev pub MetaDocument : Type 0
MetaDocument = List (Bytes × MetaGroup)

pub data LogGroup : Type 0 where
  log_servers log_rooms : LogGroup

abbrev pub group_key : LogGroup → Bytes
group_key LogGroup.log_servers = codes "log_servers"
group_key LogGroup.log_rooms = codes "log_rooms"

abbrev pub is_object : Option MetaGroup → Bool
is_object (some (MetaGroup.entries m)) = true
is_object _ = false

unfoldable pub with_group : LogGroup → MetaDocument → MetaDocument
with_group g j =
    if is_object (lookup (group_key g) j)
    then j
    else insert_or_assign (group_key g) (MetaGroup.entries []) j

abbrev pub entries_of : Option MetaGroup → List (Bytes × MetaEntry)
entries_of (some (MetaGroup.entries m)) = m
entries_of _ = []

abbrev pub text_of : Option MetaEntry → Bytes
text_of (some (MetaEntry.text value)) = value
text_of _ = []

-- `j[group].find(name)`, empty where it is not text.
abbrev pub entry_text : LogGroup → Bytes → MetaDocument → Bytes
entry_text g name j = text_of (lookup name (entries_of (lookup (group_key g) j)))

abbrev assign_in_group : Option MetaGroup → Bytes → Bytes → Bytes → MetaDocument → MetaDocument
assign_in_group none group name value j =
    insert_or_assign group (MetaGroup.entries ((name, MetaEntry.text value) ∷ [])) j
assign_in_group (some (MetaGroup.entries m)) group name value j =
    insert_or_assign group (MetaGroup.entries (insert_or_assign name (MetaEntry.text value) m)) j
assign_in_group (some (MetaGroup.other raw)) group name value j = j

-- `j[group][name] = value`; a group that is no object does not come, since `load_meta` replaces it.
unfoldable pub assign_entry : LogGroup → Bytes → Bytes → MetaDocument → MetaDocument
assign_entry g name value j = assign_in_group (lookup (group_key g) j) (group_key g) name value j

abbrev erase_in_group : Option MetaGroup → Bytes → Bytes → MetaDocument → MetaDocument
erase_in_group (some (MetaGroup.entries m)) group name j =
    insert_or_assign group (MetaGroup.entries (erase_key name m)) j
erase_in_group _ group name j = j

unfoldable pub erase_entry : LogGroup → Bytes → MetaDocument → MetaDocument
erase_entry g name j = erase_in_group (lookup (group_key g) j) (group_key g) name j

abbrev pub text_or_empty : Option Bytes → Bytes
text_or_empty none = []
text_or_empty (some raw) = raw

-- A regular entry of the directory, or not; its age in seconds where it can be read.
pub record DirEntry : Type 0 where
  pub path : Bytes
  pub filename : Bytes
  pub extension : Bytes
  pub is_regular_file : Bool
  pub age : Option ℤ

-- What is listed, and what has expired.
abbrev sort_entry :
    Option ℤ → ℤ → DirEntry → List DirEntry × List DirEntry → List DirEntry × List DirEntry
sort_entry none retention e (paths, expired) = (paths, expired)
sort_entry (some age) retention e (paths, expired) =
    if leb_ℤ age retention then (e ∷ paths, expired) else (paths, e ∷ expired)

abbrev pub is_log : DirEntry → Bool
is_log e =
    if not e.is_regular_file || e.filename == meta_file_name
    then false
    else e.extension == codes ".log"

unfoldable pub sort_entries : ℤ → List DirEntry → List DirEntry × List DirEntry
sort_entries retention [] = ([], [])
sort_entries retention (e ∷ listed) =
    let rest = sort_entries retention listed in
    if is_log e then sort_entry e.age retention e rest else rest

abbrev pub normal : Option MetaDocument → MetaDocument
normal none = []
normal (some j) = with_group LogGroup.log_rooms (with_group LogGroup.log_servers j)

module _ (parse : Bytes → Option MetaDocument) (dump : MetaDocument → Bytes) where
  -- `LoadMetaLocked`
  unfoldable pub load_meta : Logger → MetaDocument
  load_meta s =
      let raw = text_or_empty (lookup s.meta_path s.meta_files) in
      if is_empty s.meta_path || is_empty raw then [] else normal (parse raw)

  -- `SaveMetaLocked`; `opens` tells that the file can be opened.
  unfoldable pub save_meta : (opens : Bool) → MetaDocument → Logger → Logger
  save_meta opens j s =
      if is_empty s.meta_path || not opens
      then s
      else record s { meta_files = insert_or_assign s.meta_path (dump j) s.meta_files }

  -- `MetaGetLocked`
  unfoldable pub meta_get : LogGroup → Bytes → Logger → Bytes
  unfolding load_meta
  meta_get g name s = if is_empty name then [] else entry_text g name (load_meta s)

  -- `MetaSetCurrentLocked`
  unfoldable pub meta_set_current : (opens : Bool) → LogGroup → Bytes → Logger → Logger
  unfolding load_meta save_meta assign_entry
  meta_set_current opens g value s =
      if is_empty s.log_name || is_empty value
      then s
      else save_meta opens (assign_entry g s.log_name value (load_meta s)) s

  -- `MetaRemoveLocked`
  unfoldable pub meta_remove : (opens : Bool) → Bytes → Logger → Logger
  unfolding load_meta save_meta erase_entry
  meta_remove opens name s =
      if is_empty name
      then s
      else save_meta opens
          (erase_entry LogGroup.log_rooms name
            (erase_entry LogGroup.log_servers name (load_meta s)))
          s

  -- `remove`, with the name of the file at the path; it tells whether the path is taken from the disk.
  unfoldable pub remove_log : (opens : Bool) → (path filename : Bytes) → Logger → Logger × Bool
  unfolding meta_remove
  remove_log opens path filename s =
      if is_empty path then (s, false) else (meta_remove opens filename s, true)

  unfoldable pub remove_all : (opens : Bool) → List DirEntry → Logger → Logger
  unfolding remove_log
  remove_all opens [] s = s
  remove_all opens (e ∷ expired) s =
      remove_all opens expired (remove_log opens e.path e.filename s).0

  -- `files`: the entries of the directory come as it lists them.
  unfoldable pub files : (opens : Bool) → List DirEntry → Logger → Logger × List DirEntry
  unfolding sort_entries remove_all
  files opens listed s =
      let sorted = sort_entries s.retention_seconds listed in
      if is_empty s.log_dir then (s, []) else (remove_all opens sorted.1 s, sorted.0)

  abbrev set_upload_server : (opens : Bool) → Bytes → Logger → Logger
  set_upload_server opens server s = meta_set_current opens LogGroup.log_servers server s

  abbrev get_upload_server : Bytes → Logger → Bytes
  get_upload_server name s = meta_get LogGroup.log_servers name s

  abbrev pub set_room : (opens : Bool) → Bytes → Logger → Logger
  set_room opens room s = meta_set_current opens LogGroup.log_rooms room s

  abbrev pub get_room : Bytes → Logger → Bytes
  get_room name s = meta_get LogGroup.log_rooms name s
