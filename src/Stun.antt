-- ===== src/Stun.antt =====
-- stun_test.cpp: the answer of a STUN server (lines 91 to 126), and the choice of the node that
-- suits two peers best (lines 277 to 320).
pub mod Encode
pub mod Answer
pub mod Collect
pub mod Nodes
use Prim.Native.Nat.{bit_xor}
use mathlib.Core.Option
use bff_rtc_base.Base.{
  length, ◌≡◌, ℕ, zero, suc, ◌+◌, ◌*◌, true, false, ◌∷◌, ◌++◌, Option, none, some, Bytes,
  if◌then◌else◌, ltb, ◌==◌, nat_eq, bytes_eq, get_elem?, to_string, min, ◌^◌,
}

-- The header's numbers in host byte order; `attributes` is the fixed array of 1000 bytes that
-- follows the header, whatever part of it the datagram has filled.
pub record StunResponse : Type 0 where
  pub msg_type : ℕ
  pub msg_len : ℕ
  pub magic_cookie : ℕ
  pub transaction_id : Bytes
  pub attributes : Bytes
  pub size : length attributes ≡ 1000

-- How the parse ends: `out_of_bounds` is a read behind the array, which C++ leaves undefined.
pub data Parsed : Type 0 where
  refused out_of_bounds : Parsed
  client_ip : Bytes → Parsed

abbrev pub binding_response : ℕ
binding_response = 0x0101

abbrev pub xor_mapped_address : ℕ
xor_mapped_address = 0x0020

abbrev pub cookie : ℕ
cookie = 0x2112A442

word_of : Option ℕ → Option ℕ → Option ℕ
word_of (some hi) (some lo) = some (hi * 256 + lo)
word_of _ _ = none

-- Two bytes in network order; `none` where one of them is not in the array.
unfoldable pub word_at : Bytes → ℕ → Option ℕ
unfolding word_of
word_at s i = word_of (get_elem? s i) (get_elem? s (i + 1))

abbrev pub dotted : ℕ → ℕ → ℕ → ℕ → Bytes
dotted a b c d = to_string a ++ b'.' ∷ (to_string b ++ b'.' ∷ (to_string c ++ b'.' ∷ to_string d))

-- Four bytes, each combined with a byte of the cookie.
address_of : Option ℕ → Option ℕ → Option ℕ → Option ℕ → Option Bytes
address_of (some a) (some b) (some c) (some d) =
    some (dotted (bit_xor a 0x21) (bit_xor b 0x12) (bit_xor c 0xA4) (bit_xor d 0x42))
address_of _ _ _ _ = none

unfoldable pub mapped_address : Bytes → ℕ → Option Bytes
unfolding address_of
mapped_address s i =
    address_of (get_elem? s (i + 8)) (get_elem? s (i + 9)) (get_elem? s (i + 10))
      (get_elem? s (i + 11))

-- The port word is read before the address, and not used.
read_address : Bytes → ℕ → Parsed
read_address s i = elim (word_at s (i + 6)) [
  | none ↦ out_of_bounds
  | some port ↦ elim (mapped_address s i) [ none ↦ out_of_bounds | some ip ↦ client_ip ip ]
]

-- `while (i < attrbs_length)`; each round goes on by 4 at least, so `limit + 1` rounds are enough.
unfoldable pub walk : ℕ → Bytes → ℕ → ℕ → Parsed
unfolding read_address
walk zero s limit i = refused
walk (suc fuel) s limit i = elim (ltb i limit) [
  | false ↦ refused
  | true ↦ elim (word_at s i) [
    | none ↦ out_of_bounds
    | some kind ↦ elim (word_at s (i + 2)) [
      | none ↦ out_of_bounds
      | some len ↦ elim (kind == xor_mapped_address) [
        | true ↦ read_address s i
        | false ↦ walk fuel s limit (i + 4 + len)
      ]
    ]
  ]
]

-- `std::min<int16_t>(htons(msg_len), 1000)`: a length from 2^15 on turns negative, and then the
-- loop does not run.
unfoldable pub attributes_length : ℕ → ℕ
attributes_length msg_len = if ltb msg_len (2 ^ 15) then min msg_len 1000 else 0

unfoldable pub parse : StunResponse → Bytes → Parsed
unfolding walk attributes_length
parse resp tid =
    let limit = attributes_length resp.msg_len in
    let found = walk (suc limit) resp.attributes limit 0 in
    if resp.magic_cookie == cookie
    then if resp.transaction_id == tid
      then if resp.msg_type == binding_response then found else refused
      else refused
    else refused
