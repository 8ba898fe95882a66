-- ===== src/Base/Search.antt =====
-- What the searches of `std::string` find, and the decimal digits of a number.
use Prim.Native.Nat.{ℕ, zero, suc, ◌+◌, ◌-◌, ◌*◌, ◌/◌, ◌%◌, ◌<◌}
use mathlib.Core.Path.{◌≡◌, refl}
use mathlib.Core.Logic.{◌≢◌}
use mathlib.Core.Bool.{Bool, true, false, not, ◌&&◌}
use bff_rtc_base.Base.Tests.{nat_beq}
use mathlib.Core.List.{List, [], ◌∷◌, ◌++◌}
use mathlib.Core.Option.{none, some}
use native.Mathlib.Omega.{arith}
use bff_rtc_base.Base.Equality.{Bytes}
use bff_rtc_base.Base.Lists.{length, All, drop-length_append}
use bff_rtc_base.Base.Text.{
  find_byte, find_byte_from, rfind_byte, starts_with, find_text, is_digit, digits_onto, to_string,
}

-- The text has no byte `c`.
abbrev pub Lacks : ℕ → Bytes → Type 0
Lacks c s = All (λ x. x ≢ c) s

unfoldable pub lacks : ℕ → Bytes → Bool
lacks c [] = true
lacks c (x ∷ s) = not (nat_beq x c) && lacks c s

pub lacks-Lacks : (c : ℕ) (s : Bytes) → lacks c s ≡ true → Lacks c s
unfolding lacks
lacks-Lacks c [] h = tt
lacks-Lacks c (x ∷ s) h = (λ e. ground arith, lacks-Lacks c s (ground arith))

pub find_byte-Lacks : (c : ℕ) (s : Bytes) → Lacks c s → find_byte c s ≡ none
unfolding find_byte
find_byte-Lacks c [] h = refl
find_byte-Lacks c (x ∷ xs) h = ground (arith, find_byte-Lacks c xs h.1)

-- The first `c` stands behind a text that has none.
pub find_byte-append :
    (c : ℕ) (a b : Bytes) → Lacks c a → find_byte c (a ++ c ∷ b) ≡ some (length a)
unfolding find_byte
find_byte-append c [] b h = ground arith
find_byte-append c (x ∷ a) b h = ground (arith, find_byte-append c a b h.1)

pub rfind_byte-Lacks : (c : ℕ) (s : Bytes) → Lacks c s → rfind_byte c s ≡ none
unfolding rfind_byte
rfind_byte-Lacks c [] h = refl
rfind_byte-Lacks c (x ∷ xs) h = ground (arith, rfind_byte-Lacks c xs h.1)

-- The last `c` stands in front of a text that has none.
pub rfind_byte-append :
    (c : ℕ) (a b : Bytes) → Lacks c b → rfind_byte c (a ++ c ∷ b) ≡ some (length a)
unfolding rfind_byte
rfind_byte-append c [] b h = ground (arith, rfind_byte-Lacks c b h)
rfind_byte-append c (x ∷ a) b h = ground (arith, rfind_byte-append c a b h)

pub find_byte_from-append :
    (c : ℕ) (a b d : Bytes)
    → Lacks c b
    → find_byte_from c (a ++ (b ++ c ∷ d)) (length a) ≡ some (length b + length a)
unfolding find_byte_from
find_byte_from-append c a b d h = rw (drop-length_append a (b ++ c ∷ d), find_byte-append c b d h)

pub find_byte_from-Lacks :
    (c : ℕ) (a b : Bytes) → Lacks c b → find_byte_from c (a ++ b) (length a) ≡ none
unfolding find_byte_from
find_byte_from-Lacks c a b h = rw (drop-length_append a b, find_byte-Lacks c b h)

-- A text is found behind one that lacks its first byte.
pub find_text-append :
    (p : ℕ) (ps a b : Bytes)
    → Lacks p a
    → starts_with (p ∷ ps) (p ∷ b) ≡ true
    → find_text (p ∷ ps) (a ++ p ∷ b) ≡ some (length a)
unfolding find_text starts_with
find_text-append p ps [] b h e = ground arith
find_text-append p ps (x ∷ a) b h e = ground (arith, find_text-append p ps a b h.1 e)

pub find_text-Lacks : (p : ℕ) (ps s : Bytes) → Lacks p s → find_text (p ∷ ps) s ≡ none
unfolding find_text starts_with
find_text-Lacks p ps [] h = refl
find_text-Lacks p ps (x ∷ xs) h = ground (arith, find_text-Lacks p ps xs h.1)

pub starts_with-append : (a b : Bytes) → starts_with a (a ++ b) ≡ true
unfolding starts_with
starts_with-append [] b = refl
starts_with-append (x ∷ a) b = ground (arith, starts_with-append a b)

-- The text is made of decimal digits.
abbrev pub Digits : Bytes → Type 0
Digits s = All (λ c. is_digit c ≡ true) s

pub Digits-Lacks : (c : ℕ) (s : Bytes) → is_digit c ≡ false → Digits s → Lacks c s
Digits-Lacks c [] h d = tt
Digits-Lacks c (x ∷ s) h d = (λ e. ground arith, Digits-Lacks c s h d.1)

pub All-append {ℓ κ} :
    {A : Type ℓ} (P : A → Type κ) (a b : List A) → All P a → All P b → All P (a ++ b)
All-append P [] b h k = k
All-append P (x ∷ a) b h k = (h.0, All-append P a b h.1 k)

digits_onto-Digits : (f n : ℕ) (rest : Bytes) → Digits rest → Digits (digits_onto f n rest)
unfolding digits_onto
digits_onto-Digits zero n rest d = d
digits_onto-Digits (suc f) n rest d =
    ground (arith, digits_onto-Digits f (n / 10) ((b'0' + n % 10) ∷ rest))

pub to_string-Digits : (n : ℕ) → Digits (to_string n)
unfolding to_string
to_string-Digits n = digits_onto-Digits (suc n) n [] tt

-- The number that a run of digits stands for, read on from `v`.
abbrev pub value : ℕ → Bytes → ℕ
value v [] = v
value v (c ∷ s) = value (v * 10 + (c - b'0')) s

digits_onto-value : (f n : ℕ) (rest : Bytes) → n < f → value 0 (digits_onto f n rest) ≡ value n rest
unfolding digits_onto
digits_onto-value zero n rest h = absurd (omega arith)
digits_onto-value (suc f) n rest h =
    ground (arith, digits_onto-value f (n / 10) ((b'0' + n % 10) ∷ rest))

-- Reading the digits back gives the number.
pub value-to_string : (n : ℕ) → value 0 (to_string n) ≡ n
unfolding to_string
value-to_string n = digits_onto-value (suc n) n [] (omega arith)

digits_onto-ne-nil : (f n : ℕ) (rest : Bytes) → n < f → digits_onto f n rest ≢ []
unfolding digits_onto
digits_onto-ne-nil zero n rest h = absurd (omega arith)
digits_onto-ne-nil (suc f) n rest h =
    ground (arith, digits_onto-ne-nil f (n / 10) ((b'0' + n % 10) ∷ rest))

pub to_string-ne-nil : (n : ℕ) → to_string n ≢ []
unfolding to_string
to_string-ne-nil n = digits_onto-ne-nil (suc n) n [] (omega arith)
