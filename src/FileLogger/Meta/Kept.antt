-- ===== src/FileLogger/Meta/Kept.antt =====
-- What the metadata remembers (FileLogger.cpp: MetaGetLocked, MetaSetCurrentLocked, MetaRemoveLocked).
use bff_rtc_base.Base.{
  ◌≡◌, refl, sym, ap, ◌∙◌, Bool, true, false, ◌||◌, [], ◌∷◌, Option, some, Bytes, if◌then◌else◌,
  is_empty, ◌==◌, bytes_eq, bytes_beq, lookup, insert_or_assign, lookup-insert_or_assign, if-true,
  if-false, if-both, beq_self, true≢false,
}
use bff_rtc_base.FileLogger.{Logger}
use bff_rtc_base.FileLogger.Meta.{
  MetaDocument, LogGroup, group_key, entry_text, assign_entry, erase_entry, text_or_empty, normal,
  load_meta, save_meta, meta_get, meta_set_current, meta_remove,
}
use bff_rtc_base.FileLogger.Meta.Groups.{
  IsKnown, same_branches, normal-entry_text, assign_in_group-text_at, gone-text_at, normal-IsKnown,
}

or-false : (a b : Bool) → a ≡ false → b ≡ false → (a || b) ≡ false
or-false false b h k = k
or-false true b h k = h

differs : (name : Bytes) → is_empty name ≡ false → (name == []) ≡ false
unfolding bytes_beq
differs [] h = absurd (true≢false h)
differs (c ∷ name) h = refl

-- The name is erased in both groups.
abbrev pub erase_both : Bytes → MetaDocument → MetaDocument
erase_both name j = erase_entry LogGroup.log_rooms name (erase_entry LogGroup.log_servers name j)

erased-entry_text :
    (h : LogGroup) (name n : Bytes) (j : MetaDocument)
    → entry_text h n (erase_both name j) ≡ (if name == n then [] else entry_text h n j)
unfolding erase_entry bytes_beq
erased-entry_text LogGroup.log_servers name n j =
    let once = erase_entry LogGroup.log_servers name j in
    gone-text_at (lookup (group_key LogGroup.log_rooms) once) (group_key LogGroup.log_rooms)
      (group_key LogGroup.log_servers) name n once refl
    ∙ gone-text_at (lookup (group_key LogGroup.log_servers) j) (group_key LogGroup.log_servers)
        (group_key LogGroup.log_servers) name n j refl
erased-entry_text LogGroup.log_rooms name n j =
    let once = erase_entry LogGroup.log_servers name j in
    gone-text_at (lookup (group_key LogGroup.log_rooms) once) (group_key LogGroup.log_rooms)
      (group_key LogGroup.log_rooms) name n once refl
    ∙ ap (λ x. if name == n then [] else x)
        (gone-text_at (lookup (group_key LogGroup.log_servers) j) (group_key LogGroup.log_servers)
          (group_key LogGroup.log_rooms) name n j refl)

module _ (parse : Bytes → Option MetaDocument) (dump : MetaDocument → Bytes) where
  load_meta-IsKnown :
      (h : LogGroup) (s : Logger) → IsKnown (lookup (group_key h) (load_meta parse dump s))
  unfolding load_meta lookup
  load_meta-IsKnown h s =
      let raw = text_or_empty (lookup s.meta_path s.meta_files) in
      if-both (λ (j : MetaDocument). IsKnown (lookup (group_key h) j))
        (is_empty s.meta_path || is_empty raw) tt (normal-IsKnown h (parse raw))

  -- A saved document is found again.
  load_meta-save_meta :
      (h : LogGroup) (n : Bytes) (j : MetaDocument) (s : Logger)
      → is_empty s.meta_path ≡ false
      → is_empty (dump j) ≡ false
      → parse (dump j) ≡ some j
      → entry_text h n (load_meta parse dump (save_meta parse dump true j s)) ≡ entry_text h n j
  unfolding load_meta save_meta
  load_meta-save_meta h n j s path full read =
      let saved : Logger = record s {
        meta_files = insert_or_assign s.meta_path (dump j) s.meta_files;
      } in
      let raw : text_or_empty (lookup s.meta_path saved.meta_files) ≡ dump j = ap text_or_empty (
        lookup-insert_or_assign s.meta_path s.meta_path (dump j) s.meta_files
        ∙ if-true _ _ (beq_self s.meta_path)) in
      ap (λ (t : Logger). entry_text h n (load_meta parse dump t))
        (if-false s saved (or-false _ _ path refl))
      ∙ ap (entry_text h n) (
          if-false [] (normal (parse (text_or_empty (lookup s.meta_path saved.meta_files))))
            (or-false _ _ path (ap is_empty raw ∙ full)))
      ∙ ap (λ t. entry_text h n (normal (parse t))) raw
      ∙ ap (λ d. entry_text h n (normal d)) read
      ∙ normal-entry_text h n j

  -- The room or the upload server that is set for the current log is what is read for it afterwards;
  -- what is read for other logs and from the other group is what it was. That is so where a log and
  -- its metadata file are open, neither the value nor its printed document is empty, and the parser
  -- reads the printed document back.
  pub meta_get-meta_set_current :
      (g h : LogGroup) (value n : Bytes) (s : Logger)
      → is_empty s.log_name ≡ false
      → is_empty value ≡ false
      → is_empty s.meta_path ≡ false
      → is_empty (dump (assign_entry g s.log_name value (load_meta parse dump s))) ≡ false
      → parse (dump (assign_entry g s.log_name value (load_meta parse dump s)))
        ≡ some (assign_entry g s.log_name value (load_meta parse dump s))
      → meta_get parse dump h n (meta_set_current parse dump true g value s) ≡ (
          if group_key g == group_key h
          then (if s.log_name == n then value else meta_get parse dump h n s)
          else meta_get parse dump h n s)
  unfolding meta_get meta_set_current assign_entry
  meta_get-meta_set_current g h value [] s log_ value_ path full read = sym (
      ap (λ b. if group_key g == group_key h then (if b then value else []) else [])
        (differs s.log_name log_)
      ∙ same_branches (group_key g == group_key h) [])
  meta_get-meta_set_current g h value (c ∷ n) s log_ value_ path full read =
      ap (λ (t : Logger). entry_text h (c ∷ n) (load_meta parse dump t))
        (if-false _ _ (or-false _ _ log_ value_))
      ∙ load_meta-save_meta h (c ∷ n) (assign_entry g s.log_name value (load_meta parse dump s)) s
          path full read
      ∙ assign_in_group-text_at (lookup (group_key g) (load_meta parse dump s)) (group_key g)
          (group_key h) s.log_name (c ∷ n) value (load_meta parse dump s) refl
          (load_meta-IsKnown g s)

  -- After a log has been removed, nothing is read for it, neither a room nor an upload server, and
  -- what is read for other logs is what it was. That is so where the metadata file is open, the name
  -- and the printed document are not empty, and the parser reads the printed document back.
  pub meta_get-meta_remove :
      (h : LogGroup) (name n : Bytes) (s : Logger)
      → is_empty name ≡ false
      → is_empty s.meta_path ≡ false
      → is_empty (dump (erase_both name (load_meta parse dump s))) ≡ false
      → parse (dump (erase_both name (load_meta parse dump s)))
        ≡ some (erase_both name (load_meta parse dump s))
      → meta_get parse dump h n (meta_remove parse dump true name s)
        ≡ (if name == n then [] else meta_get parse dump h n s)
  unfolding meta_get meta_remove
  meta_get-meta_remove h name [] s name_ path full read = sym (same_branches (name == []) [])
  meta_get-meta_remove h name (c ∷ n) s name_ path full read =
      ap (λ (t : Logger). entry_text h (c ∷ n) (load_meta parse dump t)) (if-false _ _ name_)
      ∙ load_meta-save_meta h (c ∷ n) (erase_both name (load_meta parse dump s)) s path full read
      ∙ erased-entry_text h name (c ∷ n) (load_meta parse dump s)
