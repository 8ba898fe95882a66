-- ===== src/Base/Text.antt =====
-- The operations of `std::string` that the program uses, on lists of bytes.
use Prim.Native.Nat.{ℕ, zero, suc, ◌+◌, ◌/◌, ◌%◌}
use Prim.Native.Char.{code}
use Prim.Native.String.{String}
use mathlib.Core.Bool.{Bool, true, false, ◌&&◌}
use mathlib.Core.List.{[], ◌∷◌, ◌++◌}
use mathlib.Core.Option
use mathlib.Core.Option.{Option, none, some}
use bff_rtc_base.Base.Tests.{leb, nat_beq, ltb, if◌then◌else◌}
use bff_rtc_base.Base.Equality.{Bytes}
use bff_rtc_base.Base.Lists.{take, drop}

-- The code points of a literal: its bytes, since every literal is ASCII.
abbrev pub codes : String → Bytes
codes String.[] = []
codes (String.◌∷◌ c s) = code c ∷ codes s

-- `s.find(c)`
unfoldable pub find_byte : ℕ → Bytes → Option ℕ
find_byte c [] = none
find_byte c (x ∷ xs) = if nat_beq x c then some 0 else Option.map suc (find_byte c xs)

-- `s.find(c, pos)`
unfoldable pub find_byte_from : ℕ → Bytes → ℕ → Option ℕ
find_byte_from c s pos = Option.map (λ i. i + pos) (find_byte c (drop pos s))

-- `s.rfind(c)`
unfoldable pub rfind_byte : ℕ → Bytes → Option ℕ
rfind_byte c [] = none
rfind_byte c (x ∷ xs) = elim (rfind_byte c xs) [
  | some i ↦ some (suc i)
  | none ↦ if nat_beq x c then some 0 else none
]

-- `s.compare(0, n, pat) == 0` for a `pat` of length n
unfoldable pub starts_with : Bytes → Bytes → Bool
starts_with [] s = true
starts_with (p ∷ ps) [] = false
starts_with (p ∷ ps) (x ∷ xs) = nat_beq x p && starts_with ps xs

-- `s.find(pat)`
unfoldable pub find_text : Bytes → Bytes → Option ℕ
unfolding starts_with
find_text pat [] = if starts_with pat [] then some 0 else none
find_text pat (x ∷ xs) =
    if starts_with pat (x ∷ xs) then some 0 else Option.map suc (find_text pat xs)

-- `s.substr(pos, n)`, at a position within the text
abbrev pub substr : Bytes → ℕ → ℕ → Bytes
substr s pos n = take n (drop pos s)

-- `s.replace(pos, n, by)`, at a position within the text
abbrev pub replace : Bytes → ℕ → ℕ → Bytes → Bytes
replace s pos n by = take pos s ++ (by ++ drop (pos + n) s)

-- `isdigit`
abbrev pub is_digit : ℕ → Bool
is_digit c = leb b'0' c && leb c b'9'

-- `std::to_string` of a number that is not negative: its decimal digits, most significant first.
unfoldable pub digits_onto : ℕ → ℕ → Bytes → Bytes
digits_onto zero n rest = rest
digits_onto (suc f) n rest =
    let shorter = digits_onto f (n / 10) ((b'0' + n % 10) ∷ rest) in
    if ltb n 10 then (b'0' + n) ∷ rest else shorter

-- A number has at most as many digits as its value, so the fuel `n + 1` is enough.
unfoldable pub to_string : ℕ → Bytes
unfolding digits_onto
to_string n = digits_onto (suc n) n []
