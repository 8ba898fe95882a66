-- ===== src/Base/Maps.antt =====
-- Maps as association lists and sets as lists, over keys with an equality: `std::map`,
-- `std::unordered_map`, `std::set` and `std::unordered_set`.
use Prim.Native.Nat.{◌+◌}
use mathlib.Core.Path.{◌≡◌, refl}
use mathlib.Core.Bool.{Bool, true, false}
use mathlib.Core.List.{List, [], ◌∷◌}
use mathlib.Core.Option.{Option, none, some}
use native.Mathlib.Omega.{arith}
use bff_rtc_base.Base.Tests.{if◌then◌else◌}
use bff_rtc_base.Base.Equality.{Comparable, ◌==◌}
use bff_rtc_base.Base.Lists.{length}

module _ {ℓ κ} {K : Type ℓ} {V : Type κ} ⦃e : Comparable K⦄ where
  -- `find`
  unfoldable pub lookup : K → List (K × V) → Option V
  lookup k [] = none
  lookup k ((j, v) ∷ m) = if j == k then some v else lookup k m

  -- `m[k] = v`
  unfoldable pub insert_or_assign : K → V → List (K × V) → List (K × V)
  insert_or_assign k v [] = (k, v) ∷ []
  insert_or_assign k v ((j, w) ∷ m) = if j == k then (j, v) ∷ m else (j, w) ∷ insert_or_assign k v m

  -- `erase`
  unfoldable pub erase_key : K → List (K × V) → List (K × V)
  erase_key k [] = []
  erase_key k ((j, w) ∷ m) = if j == k then erase_key k m else (j, w) ∷ erase_key k m

  -- `emplace`: a key that is there keeps its value
  unfoldable pub emplace : K → V → List (K × V) → List (K × V)
  emplace k v [] = (k, v) ∷ []
  emplace k v ((j, w) ∷ m) = if j == k then (j, w) ∷ m else (j, w) ∷ emplace k v m

  pub lookup-insert_or_assign :
      (k j : K) (v : V) (m : List (K × V))
      → lookup j (insert_or_assign k v m) ≡ (if k == j then some v else lookup j m)
  unfolding lookup insert_or_assign
  lookup-insert_or_assign k j v [] = refl
  lookup-insert_or_assign k j v ((i, w) ∷ m) =
      ground
        (arith, e.same_iff k j, e.same_iff i k, e.same_iff i j, lookup-insert_or_assign k j v m)

  pub lookup-erase_key :
      (k j : K) (m : List (K × V))
      → lookup j (erase_key k m) ≡ (if k == j then none else lookup j m)
  unfolding lookup erase_key
  lookup-erase_key k j [] = ground arith
  lookup-erase_key k j ((i, w) ∷ m) =
      ground (arith, e.same_iff k j, e.same_iff i k, e.same_iff i j, lookup-erase_key k j m)

module _ {ℓ} {A : Type ℓ} ⦃e : Comparable A⦄ where
  unfoldable pub contains : A → List A → Bool
  contains a [] = false
  contains a (x ∷ xs) = if x == a then true else contains a xs

  -- `insert`: a new element goes to the end
  unfoldable pub set_insert : A → List A → List A
  set_insert a [] = a ∷ []
  set_insert a (x ∷ xs) = if x == a then x ∷ xs else x ∷ set_insert a xs

  unfoldable pub set_erase : A → List A → List A
  set_erase a [] = []
  set_erase a (x ∷ xs) = if x == a then set_erase a xs else x ∷ set_erase a xs

  pub contains-set_insert :
      (a b : A) (xs : List A)
      → contains b (set_insert a xs) ≡ (if a == b then true else contains b xs)
  unfolding contains set_insert
  contains-set_insert a b [] = refl
  contains-set_insert a b (x ∷ xs) =
      ground (arith, e.same_iff a b, e.same_iff x a, e.same_iff x b, contains-set_insert a b xs)

  pub contains-set_erase :
      (a b : A) (xs : List A)
      → contains b (set_erase a xs) ≡ (if a == b then false else contains b xs)
  unfolding contains set_erase
  contains-set_erase a b [] = ground arith
  contains-set_erase a b (x ∷ xs) =
      ground (arith, e.same_iff a b, e.same_iff x a, e.same_iff x b, contains-set_erase a b xs)

  pub length-set_insert :
      (a : A) (xs : List A)
      → length (set_insert a xs) ≡ (if contains a xs then length xs else length xs + 1)
  unfolding contains set_insert
  length-set_insert a [] = ground arith
  length-set_insert a (x ∷ xs) = ground (arith, length-set_insert a xs)
