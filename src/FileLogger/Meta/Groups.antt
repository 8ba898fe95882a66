-- ===== src/FileLogger/Meta/Groups.antt =====
-- The documents of the metadata: a group is made, an entry is set or erased (FileLogger.cpp: the
-- accesses of the JSON object in LoadMetaLocked, MetaSetCurrentLocked and MetaRemoveLocked).
use bff_rtc_base.Base.{
  ◌≡◌, refl, sym, ap, ◌∙◌, Bool, true, false, List, [], ◌∷◌, Option, none, some, Bytes,
  if◌then◌else◌, ◌==◌, bytes_eq, lookup, insert_or_assign, erase_key, lookup-insert_or_assign,
  lookup-erase_key, if-true, if-false, if-cases, if-both, beq_self, true≢false,
}
use bff_rtc_base.FileLogger.Meta.{
  MetaEntry, MetaGroup, MetaDocument, LogGroup, group_key, is_object, with_group, entries_of,
  text_of, entry_text, assign_in_group, erase_in_group, normal,
}

-- The text of an entry, by the keys.
abbrev pub text_at : Bytes → Bytes → MetaDocument → Bytes
text_at group name j = text_of (lookup name (entries_of (lookup group j)))

entries_of-none : (g : Option MetaGroup) → is_object g ≡ false → entries_of g ≡ []
entries_of-none none h = refl
entries_of-none (some (MetaGroup.entries m)) h = absurd (true≢false h)
entries_of-none (some (MetaGroup.other raw)) h = refl

-- What is known at a key holds at an equal one.
at_key {ℓ} :
    {A : Type ℓ} (f : Bytes → A) (x : A) (g h : Bytes)
    → (if g == h then f g else x) ≡ (if g == h then f h else x)
at_key f x g h =
    if-cases (λ y. y ≡ (if g == h then f h else x)) (g == h)
      (λ eq. ap f ((bytes_eq.same_iff g h).0 eq) ∙ sym (if-true (f h) x eq))
      (λ ne. sym (if-false (f h) x ne))

pub same_branches {ℓ} : {A : Type ℓ} (b : Bool) (x : A) → (if b then x else x) ≡ x
same_branches b x = if-both (λ y. y ≡ x) b refl refl

ap-if {ℓ k} :
    {A : Type ℓ} {B : Type k} (f : A → B) (b : Bool) (x y : A)
    → f (if b then x else y) ≡ (if b then f x else f y)
ap-if f true x y = refl
ap-if f false x y = refl

-- After a group is stored, its texts are those of the new entries.
stored-text_at :
    (g h name : Bytes) (m : List (Bytes × MetaEntry)) (j : MetaDocument)
    → text_at h name (insert_or_assign g (MetaGroup.entries m) j)
      ≡ (if g == h then text_of (lookup name m) else text_at h name j)
stored-text_at g h name m j =
    ap (λ o. text_of (lookup name (entries_of o)))
      (lookup-insert_or_assign g h (MetaGroup.entries m) j)
    ∙ ap-if (λ o. text_of (lookup name (entries_of o))) (g == h) (some (MetaGroup.entries m))
        (lookup h j)

-- A missing group has no texts.
missing-text_at :
    (g h name : Bytes) (j : MetaDocument)
    → entries_of (lookup g j) ≡ []
    → text_at h name j ≡ (if g == h then [] else text_at h name j)
unfolding lookup
missing-text_at g h name j none_ =
    sym (same_branches (g == h) (text_at h name j))
    ∙ sym (at_key (λ k. text_at k name j) (text_at h name j) g h)
    ∙ ap (λ m. if g == h then text_of (lookup name m) else text_at h name j) none_

-- A missing group, made, has no texts.
with_group-entry_text :
    (g h : LogGroup) (name : Bytes) (j : MetaDocument)
    → entry_text h name (with_group g j) ≡ entry_text h name j
unfolding with_group lookup
with_group-entry_text g h name j =
    if-cases (λ (k : MetaDocument). entry_text h name k ≡ entry_text h name j)
      (is_object (lookup (group_key g) j)) (λ _. refl)
      (λ no.
        stored-text_at (group_key g) (group_key h) name [] j
        ∙ sym (
            missing-text_at (group_key g) (group_key h) name j
              (entries_of-none (lookup (group_key g) j) no)))

pub normal-entry_text :
    (h : LogGroup) (name : Bytes) (j : MetaDocument)
    → entry_text h name (normal (some j)) ≡ entry_text h name j
normal-entry_text h name j =
    with_group-entry_text LogGroup.log_rooms h name (with_group LogGroup.log_servers j)
    ∙ with_group-entry_text LogGroup.log_servers h name j

-- No group is a value of another kind.
abbrev pub IsKnown : Option MetaGroup → Type 0
IsKnown none = Unit
IsKnown (some (MetaGroup.entries m)) = Unit
IsKnown (some (MetaGroup.other raw)) = ⊥

-- The text at a name of a group after a value has been stored there.
abbrev pub changed : (group name : Bytes) → (value : Bytes) → (h n : Bytes) → (old : Bytes) → Bytes
changed group name value h n old = if group == h then (if name == n then value else old) else old

changed-stored :
    (g h name n value : Bytes) (m : List (Bytes × MetaEntry)) (j : MetaDocument)
    → text_of (lookup n m) ≡ (if name == n then value else text_at g n j)
    → text_at h n (insert_or_assign g (MetaGroup.entries m) j)
      ≡ changed g name value h n (text_at h n j)
changed-stored g h name n value m j now =
    stored-text_at g h n m j
    ∙ ap (λ x. if g == h then x else text_at h n j) now
    ∙ at_key (λ k. if name == n then value else text_at k n j) (text_at h n j) g h

pub assign_in_group-text_at :
    (o : Option MetaGroup) (g h name n value : Bytes) (j : MetaDocument)
    → lookup g j ≡ o
    → IsKnown o
    → text_at h n (assign_in_group o g name value j) ≡ changed g name value h n (text_at h n j)
unfolding insert_or_assign lookup
assign_in_group-text_at none g h name n value j at known =
    changed-stored g h name n value ((name, MetaEntry.text value) ∷ []) j (
      ap-if text_of (name == n) (some (MetaEntry.text value)) none
      ∙ ap (λ x. if name == n then value else text_of (lookup n (entries_of x))) (sym at))
assign_in_group-text_at (some (MetaGroup.entries m)) g h name n value j at known =
    changed-stored g h name n value (insert_or_assign name (MetaEntry.text value) m) j (
      ap text_of (lookup-insert_or_assign name n (MetaEntry.text value) m)
      ∙ ap-if text_of (name == n) (some (MetaEntry.text value)) (lookup n m)
      ∙ ap (λ x. if name == n then value else text_of (lookup n (entries_of x))) (sym at))
assign_in_group-text_at (some (MetaGroup.other raw)) g h name n value j at known = absurd known

-- Nothing is to be erased in a missing group.
kept_missing :
    (g h name n : Bytes) (j : MetaDocument)
    → entries_of (lookup g j) ≡ []
    → text_at h n j ≡ changed g name [] h n (text_at h n j)
unfolding lookup
kept_missing g h name n j none_ =
    missing-text_at g h n j none_
    ∙ ap (λ x. if g == h then x else text_at h n j) (sym (same_branches (name == n) []))
    ∙ ap (λ m. if g == h then (if name == n then [] else text_of (lookup n m)) else text_at h n j)
        (sym none_)
    ∙ at_key (λ k. if name == n then [] else text_at k n j) (text_at h n j) g h

pub gone-text_at :
    (o : Option MetaGroup) (g h name n : Bytes) (j : MetaDocument)
    → lookup g j ≡ o
    → text_at h n (erase_in_group o g name j) ≡ changed g name [] h n (text_at h n j)
unfolding lookup
gone-text_at (some (MetaGroup.entries m)) g h name n j at =
    changed-stored g h name n [] (erase_key name m) j (
      ap text_of (lookup-erase_key name n m)
      ∙ ap-if text_of (name == n) none (lookup n m)
      ∙ ap (λ x. if name == n then [] else text_of (lookup n (entries_of x))) (sym at))
gone-text_at none g h name n j at = kept_missing g h name n j (ap entries_of at)
gone-text_at (some (MetaGroup.other raw)) g h name n j at =
    kept_missing g h name n j (ap entries_of at)

-- `load_meta` makes both groups objects.
with_group-is_object :
    (g : LogGroup) (j : MetaDocument) → is_object (lookup (group_key g) (with_group g j)) ≡ true
unfolding with_group
with_group-is_object g j =
    if-cases (λ (k : MetaDocument). is_object (lookup (group_key g) k) ≡ true)
      (is_object (lookup (group_key g) j)) (λ there. there)
      (λ _. ap is_object (
        lookup-insert_or_assign (group_key g) (group_key g) (MetaGroup.entries []) j
        ∙ if-true _ _ (beq_self (group_key g))))

with_group-keeps :
    (g h : LogGroup) (j : MetaDocument)
    → is_object (lookup (group_key h) j) ≡ true
    → is_object (lookup (group_key h) (with_group g j)) ≡ true
unfolding with_group
with_group-keeps g h j there =
    if-both (λ (k : MetaDocument). is_object (lookup (group_key h) k) ≡ true)
      (is_object (lookup (group_key g) j)) there
      (ap is_object (lookup-insert_or_assign (group_key g) (group_key h) (MetaGroup.entries []) j)
        ∙ ap-if is_object (group_key g == group_key h) (some (MetaGroup.entries []))
            (lookup (group_key h) j)
        ∙ ap (λ x. if group_key g == group_key h then true else x) there
        ∙ same_branches (group_key g == group_key h) true)

object-IsKnown : (o : Option MetaGroup) → is_object o ≡ true → IsKnown o
object-IsKnown none h = tt
object-IsKnown (some (MetaGroup.entries m)) h = tt
object-IsKnown (some (MetaGroup.other raw)) h = absurd (true≢false (sym h))

pub normal-IsKnown :
    (h : LogGroup) (d : Option MetaDocument) → IsKnown (lookup (group_key h) (normal d))
unfolding lookup
normal-IsKnown h none = tt
normal-IsKnown LogGroup.log_servers (some j) = object-IsKnown _ (
    with_group-keeps LogGroup.log_rooms LogGroup.log_servers (with_group LogGroup.log_servers j)
      (with_group-is_object LogGroup.log_servers j))
normal-IsKnown LogGroup.log_rooms (some j) =
    object-IsKnown _ (with_group-is_object LogGroup.log_rooms (with_group LogGroup.log_servers j))
