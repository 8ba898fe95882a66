-- ===== src/Url/Token/Laws.antt =====
-- What `replace_token_query` keeps and changes.
use mathlib.Core.Option
use bff_rtc_base.Base.{
  ◌∙◌, length-append, drop_all, take-length_append, add_comm, ℕ, zero, suc, ◌+◌, ◌≤◌, ◌≡◌, ◌≢◌,
  refl, ap, sym, ◌⊎◌, inl, inr, Bool, true, false, ◌&&◌, ◌||◌, [], ◌∷◌, ◌++◌, append_assoc, Option,
  none, some, Bytes, codes, if◌then◌else◌, ◌==◌, nat_eq, arith, length, drop, find_byte,
  find_byte_from, starts_with, Bool-cases, Option-cases, drop-length_append_add, drop-length_append,
  starts_with-append,
}
use mathlib.Core.Option.{some-injective}
use bff_rtc_base.Url.Token.{find_token, replace_token_query}

abbrev key : Bytes
key = codes "token="

-- The rest of a value's text, from the first `&`.
abbrev pub from_amp : Bytes → Bytes
from_amp [] = []
from_amp (c ∷ s) = if c == b'&' then c ∷ s else from_amp s

abbrev pub is_separator : ℕ → Bool
is_separator c = c == b'?' || c == b'&'

-- A URL with the parts around its first `token` value.
abbrev pub with_value : Bytes → ℕ → Bytes → Bytes
with_value before separator tail = before ++ separator ∷ (key ++ tail)

starts_with-append_le :
    (p s t : Bytes) → length p ≤ length s → starts_with p (s ++ t) ≡ starts_with p s
unfolding starts_with
starts_with-append_le [] s t h = refl
starts_with-append_le (x ∷ p) [] t h = absurd (omega arith)
starts_with-append_le (x ∷ p) (y ∷ s) t h = ground (arith, starts_with-append_le p s t)

-- Whether `token=` stands at a place in front of a separator and `token=` does not depend on what
-- stands behind them.
starts_with-with_value :
    (a : Bytes) (c : ℕ) (t u : Bytes)
    → starts_with key (with_value a c t) ≡ starts_with key (with_value a c u)
starts_with-with_value a c t u = rw (
  ← append_assoc a (c ∷ key) t,
  ← append_assoc a (c ∷ key) u,
  starts_with-append_le key (a ++ c ∷ key) t long,
  starts_with-append_le key (a ++ c ∷ key) u long,
)
  where
    long : length key ≤ length (a ++ c ∷ key)
    long = omega (arith, length-append a (c ∷ key))

find_token-with_value :
    (a : Bytes) (c : ℕ) (t u : Bytes)
    → is_separator c ≡ true
    → find_token (with_value a c t) ≡ find_token (with_value a c u)
unfolding find_token
find_token-with_value [] c t u h =
    ground (arith, starts_with-append key t, starts_with-append key u)
find_token-with_value (x ∷ a) c t u h =
    ground (arith, starts_with-with_value a c t u, find_token-with_value a c t u)

-- Where a token is found, the URL has these parts.
record Found (url : Bytes) (pos : ℕ) : Type 0 where
  before : Bytes
  separator : ℕ
  tail : Bytes
  is_url : url ≡ with_value before separator tail
  is_pos : pos ≡ length before + 1
  is_sep : is_separator separator ≡ true

starts_with-split : (p s : Bytes) → starts_with p s ≡ true → s ≡ p ++ drop (length p) s
unfolding starts_with
starts_with-split [] s h = refl
starts_with-split (x ∷ p) [] h = cc
starts_with-split (x ∷ p) (y ∷ s) h = ground (arith, starts_with-split p s)

Found-cons : (c : ℕ) {s : Bytes} {pos : ℕ} → Found s pos → Found (c ∷ s) (suc pos)
Found-cons c f = record {
  before = c ∷ f.before;
  separator = f.separator;
  tail = f.tail;
  is_url = ap (◌∷◌ c) f.is_url;
  is_pos = omega (arith, f.is_pos);
  is_sep = f.is_sep;
}

Found-here :
    (c : ℕ) (s : Bytes) → is_separator c ≡ true → starts_with key s ≡ true → Found (c ∷ s) 1
Found-here c s h k = record {
  before = [];
  separator = c;
  tail = drop (length key) s;
  is_url = ap (◌∷◌ c) (starts_with-split key s k);
  is_pos = omega arith;
  is_sep = h;
}

&&-true : (a b : Bool) → (a && b) ≡ true → (a ≡ true) × (b ≡ true)
&&-true true b h = (refl, h)
&&-true false b h = cc

map-suc-some :
    (o : Option ℕ) (p : ℕ) → Option.map suc o ≡ some p → (q : ℕ) × (o ≡ some q) × (p ≡ suc q)
map-suc-some none p h = cc
map-suc-some (some q) p h = (q, refl, ground arith)

find_token-Found : (url : Bytes) (pos : ℕ) → find_token url ≡ some pos → Found url pos
unfolding find_token
find_token-Found [] pos h = cc
find_token-Found (c ∷ s) pos h = elim (Bool-cases (is_separator c && starts_with key s)) [
  | inl hit ↦
      let (sep, here) = &&-true (is_separator c) (starts_with key s) hit in
      let e : pos ≡ 1 = ground arith in rw e (Found-here c s sep here)
  | inr miss ↦
      let (q, found, e) = map-suc-some (find_token s) pos (rw (miss) at h) in
      rw e (Found-cons c (find_token-Found s q found))
]

from_amp-none : (t : Bytes) → find_byte b'&' t ≡ none → from_amp t ≡ []
unfolding find_byte
from_amp-none [] h = refl
from_amp-none (c ∷ t) h = ground (arith, from_amp-none t)

from_amp-some : (t : Bytes) (i : ℕ) → find_byte b'&' t ≡ some i → drop i t ≡ from_amp t
unfolding find_byte
from_amp-some [] i h = cc
from_amp-some (c ∷ t) zero h = ground arith
from_amp-some (c ∷ t) (suc i) h = ground (arith, from_amp-some t i)

-- The value ends at the next `&`, or at the end.
drop_value :
    (pre t : Bytes)
    → drop
        (Option.get_or (find_byte_from b'&' (pre ++ t) (length pre)) (length (pre ++ t)))
        (pre ++ t)
      ≡ from_amp t
unfolding find_byte_from
drop_value pre t = elim (Option-cases (find_byte b'&' t)) [
  | inl e ↦ rw (drop-length_append pre t, e, from_amp-none t e) (drop_all (pre ++ t))
  | inr (i, e) ↦
      rw (drop-length_append pre t, e, add_comm i (length pre), drop-length_append_add pre t i)
        (from_amp-some t i e)
]

replace-append :
    (pre t token : Bytes) (pos : ℕ)
    → find_token (pre ++ t) ≡ some pos
    → pos + 6 ≡ length pre
    → token ≢ []
    → replace_token_query (pre ++ t) token ≡ pre ++ (token ++ from_amp t)
unfolding replace_token_query
replace-append pre t [] pos h e ne = absurd (ne refl)
replace-append pre t (x ∷ token) pos h e ne =
    rw (h, e, drop_value pre t, take-length_append pre t, replace_token_query)

-- The new value is put in the old one's place.
replace-with_value :
    (a : Bytes) (c : ℕ) (t token : Bytes)
    → find_token (with_value a c t) ≡ some (length a + 1)
    → token ≢ []
    → replace_token_query (with_value a c t) token ≡ with_value a c (token ++ from_amp t)
replace-with_value a c t token h ne =
    rw (← append_assoc a (c ∷ key) t, ← append_assoc a (c ∷ key) (token ++ from_amp t))
      (replace-append (a ++ c ∷ key) t token (length a + 1) (rw (append_assoc a (c ∷ key) t) h)
        (omega (arith, length-append a (c ∷ key))) ne)

replace-none : (url token : Bytes) → find_token url ≡ none → replace_token_query url token ≡ url
unfolding replace_token_query
replace-none url [] e = refl
replace-none url (x ∷ token) e = rw (e, replace_token_query)

module _ {url : Bytes} {pos : ℕ} (e : find_token url ≡ some pos) (f : Found url pos) where
  -- Behind the first `token=` any text leaves it the first.
  Found-find_token :
      (u : Bytes) → find_token (with_value f.before f.separator u) ≡ some (length f.before + 1)
  Found-find_token u =
      find_token-with_value f.before f.separator u f.tail f.is_sep
      ∙ ap find_token (sym f.is_url)
      ∙ e
      ∙ ap some f.is_pos

  Found-replace :
      (token : Bytes)
      → token ≢ []
      → replace_token_query url token ≡ with_value f.before f.separator (token ++ from_amp f.tail)
  Found-replace token ne =
      ap (λ u. replace_token_query u token) f.is_url
      ∙ replace-with_value f.before f.separator f.tail token (Found-find_token f.tail) ne

-- A `token` parameter, with `?` or `&` in front of it, has at least as much text before it.
abbrev pub IsFirst : Bytes → Bytes → Type 0
IsFirst url before =
    (a : Bytes) (c : ℕ) (t : Bytes)
    → is_separator c ≡ true
    → url ≡ with_value a c t
    → length before ≤ length a

-- The URL has no such parameter.
abbrev pub HasNoToken : Bytes → Type 0
HasNoToken url = (a : Bytes) (c : ℕ) (t : Bytes) → is_separator c ≡ true → url ≢ with_value a c t

-- The parameter is found, or one before it.
find_token-le :
    (a : Bytes) (c : ℕ) (t : Bytes)
    → is_separator c ≡ true
    → (p : ℕ) × (find_token (with_value a c t) ≡ some p) × (p ≤ length a + 1)
unfolding find_token
find_token-le [] c t h = (1, ground (arith, starts_with-append key t), omega arith)
find_token-le (x ∷ a) c t h =
    let (p, found, le) = find_token-le a c t h in
    elim (Bool-cases (is_separator x && starts_with key (with_value a c t))) [
      | inl hit ↦ (1, rw hit refl, omega arith)
      | inr miss ↦ (suc p, rw (miss, found) refl, omega arith)
    ]

none-HasNoToken : (url : Bytes) → find_token url ≡ none → HasNoToken url
none-HasNoToken url e a c t h is_url =
    let (p, found, le) = find_token-le a c t h in
    let clash : none ≡ some p = sym e ∙ ap find_token is_url ∙ found in cc

Found-IsFirst :
    (url : Bytes) (pos : ℕ) → find_token url ≡ some pos → (f : Found url pos) → IsFirst url f.before
Found-IsFirst url pos e f a c t h is_url =
    let (p, found, le) = find_token-le a c t h in
    let same : pos ≡ p = some-injective _ _ (sym e ∙ ap find_token is_url ∙ found) in
    omega (arith, f.is_pos)

-- Setting a token that is not empty puts it in the place of the value of the first `token=` behind a
-- `?` or `&`, up to the next `&`, and keeps all else; a URL with no such parameter is not changed.
pub replace_token_query_frame :
    (url token : Bytes)
    → token ≢ []
    → (HasNoToken url × (replace_token_query url token ≡ url))
      ⊎ ((before : Bytes) × (separator : ℕ) × (tail : Bytes) × (url
            ≡ with_value before separator tail)
          × (is_separator separator ≡ true)
          × IsFirst url before
          × (replace_token_query url token ≡ with_value before separator (token ++ from_amp tail)))
replace_token_query_frame url token ne = elim (Option-cases (find_token url)) [
  | inl e ↦ inl (none-HasNoToken url e, replace-none url token e)
  | inr (pos, e) ↦
      let f = find_token-Found url pos e in
      inr (
        f.before,
        f.separator,
        f.tail,
        f.is_url,
        f.is_sep,
        Found-IsFirst url pos e f,
        Found-replace e f token ne,
      )
]
