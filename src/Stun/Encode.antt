-- ===== src/Stun/Encode.antt =====
-- The attributes of an answer as bytes, and what the code reads out of them.
use Prim.Native.Nat.{bit_xor}
use bff_rtc_base.Base.{
  ℕ, zero, suc, ◌+◌, ◌/◌, ◌%◌, ◌<◌, Bool, true, ◌≡◌, refl, List, [], ◌∷◌, ◌++◌, some, Bytes, nat_eq,
  bytes_eq, get_elem?-append, length, arith, nat_beq, ◌&&◌, nat_beq_iff,
}
use bff_rtc_base.Stun.{word_at, mapped_address, dotted}

abbrev word : ℕ → Bytes
word n = (n / 256) ∷ (n % 256) ∷ []

pub record Attribute : Type 0 where
  pub kind : ℕ
  pub value : Bytes

-- Attributes as the code reads them: one behind the other, with no padding.
abbrev pub encode_attribute : Attribute → Bytes → Bytes
encode_attribute a rest =
    (a.kind / 256)
    ∷ (a.kind % 256)
    ∷ (length a.value / 256)
    ∷ (length a.value % 256)
    ∷ (a.value ++ rest)

abbrev pub encode : List Attribute → Bytes → Bytes
encode [] rest = rest
encode (a ∷ as_) rest = encode_attribute a (encode as_ rest)

-- The address attribute of RFC 5389: family and port, then the address under the cookie.
abbrev pub encode_mapped : ℕ → ℕ → ℕ → ℕ → ℕ → Bytes → Bytes
encode_mapped port a b c d rest =
    0
    ∷ 0x20
    ∷ 0
    ∷ 8
    ∷ 0
    ∷ 1
    ∷ (port / 256)
    ∷ (port % 256)
    ∷ bit_xor a 0x21
    ∷ bit_xor b 0x12
    ∷ bit_xor c 0xA4
    ∷ bit_xor d 0x42
    ∷ rest

pub word_at-append : (pre s : Bytes) (k : ℕ) → word_at (pre ++ s) (length pre + k) ≡ word_at s k
unfolding word_at
word_at-append pre s k =
    let e : length pre + k + 1 ≡ length pre + (k + 1) = omega arith in
    rw (e, get_elem?-append pre s k, get_elem?-append pre s (k + 1), word_at)

pub mapped_address-append :
    (pre s : Bytes) → mapped_address (pre ++ s) (length pre) ≡ mapped_address s 0
unfolding mapped_address
mapped_address-append pre s = rw (
  get_elem?-append pre s 8,
  get_elem?-append pre s 9,
  get_elem?-append pre s 10,
  get_elem?-append pre s 11,
  mapped_address,
)

-- The cookie's bytes cancel on a byte.
-- A test holds below `n`.
holds_below : (ℕ → Bool) → ℕ → Bool
holds_below test zero = true
holds_below test (suc n) = holds_below test n && test n

holds_below-lt : (test : ℕ → Bool) (x n : ℕ) → x < n → holds_below test n ≡ true → test x ≡ true
unfolding holds_below
holds_below-lt test x zero lt h = absurd (omega arith)
holds_below-lt test x (suc n) lt h = ground (arith, holds_below-lt test x n)

abbrev cancels : ℕ → ℕ → Bool
cancels m x = nat_beq (bit_xor (bit_xor x m) m) x

cancels_tables :
    (holds_below (cancels 0x21) 256 ≡ true)
    × (holds_below (cancels 0x12) 256 ≡ true)
    × (holds_below (cancels 0xA4) 256 ≡ true)
    × (holds_below (cancels 0x42) 256 ≡ true)
unfolding holds_below
cancels_tables = (refl, refl, refl, refl)

xor_twice : (m x : ℕ) → holds_below (cancels m) 256 ≡ true → x < 256 → bit_xor (bit_xor x m) m ≡ x
xor_twice m x t lt = (nat_beq_iff _ x).0 (holds_below-lt (cancels m) x 256 lt t)

-- The address attribute gives back the address.
pub mapped_address-encode :
    (port a b c d : ℕ) (rest : Bytes)
    → a < 256
    → b < 256
    → c < 256
    → d < 256
    → mapped_address (encode_mapped port a b c d rest) 0 ≡ some (dotted a b c d)
unfolding mapped_address
mapped_address-encode port a b c d rest ha hb hc hd = rw (
  xor_twice 0x21 a cancels_tables.0 ha,
  xor_twice 0x12 b cancels_tables.1 hb,
  xor_twice 0xA4 c cancels_tables.2 hc,
  xor_twice 0x42 d cancels_tables.3 hd,
)
