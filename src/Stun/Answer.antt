-- ===== src/Stun/Answer.antt =====
-- Which answers are accepted, and what is read out of them.
use bff_rtc_base.Base.{
  ℕ, suc, ◌+◌, ◌/◌, ◌%◌, ◌≤◌, ◌<◌, ◌^◌, false, ◌≡◌, ◌≢◌, refl, ap, List, [], ◌∷◌, none, some, Bytes,
  ◌==◌, nat_eq, bytes_eq, bytes_beq_iff, get_elem?-none, length, arith, beq_self, lt→ltb, ◌∙◌,
}
use bff_rtc_base.Stun.{
  StunResponse, out_of_bounds, client_ip, binding_response, xor_mapped_address, cookie, word_at,
  walk, attributes_length, parse,
}
use bff_rtc_base.Stun.Encode.{Attribute, encode, encode_mapped}

-- An answer is accepted only if its cookie, its transaction and its type are the right ones.
parse_guards :
    (resp : StunResponse) (tid ip : Bytes)
    → parse resp tid ≡ client_ip ip
    → (resp.magic_cookie ≡ cookie)
      × (resp.transaction_id ≡ tid)
      × (resp.msg_type ≡ binding_response)
unfolding parse
parse_guards resp tid ip h = ground (arith, bytes_beq_iff resp.transaction_id tid)

-- An attribute that the walk goes past.
abbrev pub IsOther : Attribute → Type 0
IsOther a = (a.kind ≢ xor_mapped_address) × (a.kind < 2 ^ 16) × (length a.value < 2 ^ 16)

-- One round of the loop at an attribute, once its two words are known.
module _ (fuel : ℕ) (s : Bytes) (limit i len : ℕ) (h : i < limit) where
  walk_at_other :
      (kind : ℕ)
      → word_at s i ≡ some kind
      → word_at s (i + 2) ≡ some len
      → kind ≢ xor_mapped_address
      → walk (suc fuel) s limit i ≡ walk fuel s limit (i + 4 + len)
  unfolding walk
  walk_at_other kind k l ne =
      let other : (kind == xor_mapped_address) ≡ false = ground arith in
      rw (lt→ltb i limit h, k, l, other, walk)

  walk_at_end : word_at s i ≡ none → walk (suc fuel) s limit i ≡ out_of_bounds
  unfolding walk
  walk_at_end k = rw (lt→ltb i limit h, k, walk)

-- The bytes that the attributes take.
abbrev pub span : List Attribute → ℕ
span [] = 0
span (a ∷ as_) = 4 + length a.value + span as_

-- The answer that a server sends for `tid`, with other attributes in front of the address.
abbrev pub answer :
    Bytes
    → (as_ : List Attribute) → ℕ
    → (port a b c d : ℕ) → (rest : Bytes)
    → length (encode as_ (encode_mapped port a b c d rest)) ≡ 1000
    → StunResponse
answer tid as_ msg_len port a b c d rest size = record {
  msg_type = binding_response;
  msg_len = msg_len;
  magic_cookie = cookie;
  transaction_id = tid;
  attributes = encode as_ (encode_mapped port a b c d rest);
  size = size;
}

attributes_length-max :
    (msg_len : ℕ) → 1000 ≤ msg_len → msg_len < 2 ^ 15 → attributes_length msg_len ≡ 1000
unfolding attributes_length
attributes_length-max msg_len le lt = rw (lt→ltb msg_len (2 ^ 15) lt) (omega arith)

word_at-none : (s : Bytes) (i : ℕ) → length s ≤ i + 1 → word_at s i ≡ none
unfolding word_at
word_at-none s i h = rw (get_elem?-none s (i + 1) h) (ground arith)

-- The bound of the loop checks where an attribute begins, not where it ends: an answer of the
-- right kind whose first attribute, of another kind, is 995 bytes long and whose length is 1000
-- or more makes the code read behind the array of 1000 bytes.
pub parse_out_of_bounds :
    (tid : Bytes) (kind msg_len : ℕ) (value : Bytes)
    → kind ≢ xor_mapped_address
    → kind < 2 ^ 16
    → (len : length value ≡ 996) → 1000 ≤ msg_len
    → msg_len < 2 ^ 15
    → parse
        (record {
          msg_type = binding_response;
          msg_len = msg_len;
          magic_cookie = cookie;
          transaction_id = tid;
          attributes = (kind / 256) ∷ (kind % 256) ∷ 0x03 ∷ 0xE3 ∷ value;
          size = omega (arith, len);
        })
        tid
      ≡ out_of_bounds
unfolding parse
parse_out_of_bounds tid kind msg_len value ne small len le lt =
    let s = (kind / 256) ∷ (kind % 256) ∷ 0x03 ∷ 0xE3 ∷ value in
    let limit : attributes_length msg_len ≡ 1000 = attributes_length-max msg_len le lt in
    rw (beq_self tid, limit)
      (walk_at_other 1000 s 1000 0 995 (omega arith) kind (unfold word_at in ap some (omega arith))
          (unfold word_at in refl) ne
        ∙ walk_at_end 999 s 1000 999 995 (omega arith) (word_at-none s 999 (omega arith)))
