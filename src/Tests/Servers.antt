-- ===== src/Tests/Servers.antt =====
-- STUN answers and the choice of a node, on concrete data.
use bff_rtc_base.Base.{
  ℤ, List, true, false, lookup, emplace, insert_or_assign, ℕ, zero, suc, ◌/◌, ◌%◌, bytes_beq,
  bytes_beq_iff, ◌≤◌, ◌≡◌, refl, [], ◌∷◌, Bytes, codes, arith, pos, lacks, lacks-Lacks, length,
  rfind_byte, find_byte,
}
use bff_rtc_base.Stun.{
  StunResponse, word_at, mapped_address, out_of_bounds, binding_response, cookie, parse,
}
use bff_rtc_base.Stun.Collect.{Request, Poll, Collecting, goes_on, stops, undefined_read, sort_stun}
use bff_rtc_base.Stun.Collect.Bound.{IsWithin, sort_stun-IsWithin}
use bff_rtc_base.Stun.Encode.{Attribute, encode, encode_mapped}
use bff_rtc_base.Stun.Nodes.Loop.{rtt_of, IsDistinct}
use bff_rtc_base.Stun.Answer.{answer, parse_out_of_bounds}
use bff_rtc_base.Stun.Nodes.{Rtts, squares, normalize_node_ip, find_best_node}
use bff_rtc_base.Stun.Nodes.Least.{Both, find_best_node-least}
use bff_rtc_base.Stun.Nodes.Agree.{NoTie, find_best_node_comm, find_best_node_tie}

abbrev tid : Bytes
tid = codes "transaction1"

abbrev software : Attribute
software = record { kind = 0x8022; value = codes "coturn" }

zeros : ℕ → Bytes
zeros zero = []
zeros (suc n) = 0 ∷ zeros n

length-zeros : (n : ℕ) → length (zeros n) ≡ n
unfolding zeros
length-zeros zero = refl
length-zeros (suc n) = ground (arith, length-zeros n)

plain_size : length (encode [] (encode_mapped 3478 10 0 0 1 (zeros 988))) ≡ 1000
plain_size = omega (arith, length-zeros 988)

abbrev plain_answer : StunResponse
plain_answer = answer tid [] 12 3478 10 0 0 1 (zeros 988) plain_size

abbrev asked_at : Bytes → ℕ → Request
asked_at server_key sent_at = record {
  server_key = server_key;
  transaction_id = tid;
  sent_at = sent_at;
  is_sent = true;
}

abbrev twice : List Poll
twice = Poll.answered (codes "a") plain_answer 15 ∷ Poll.answered (codes "a") plain_answer 16 ∷ []

sort_stun-IsWithin_example :
    IsWithin 2 (sort_stun true false (asked_at (codes "a") 10 ∷ asked_at (codes "b") 10 ∷ []) twice)
sort_stun-IsWithin_example =
    sort_stun-IsWithin true false (asked_at (codes "a") 10 ∷ asked_at (codes "b") 10 ∷ []) twice

abbrev listed_of : Collecting → List (Bytes × ℕ)
listed_of (goes_on c) = c.sorted
listed_of (stops c) = c.sorted
listed_of undefined_read = []

-- A datagram that comes twice ends the loop before the other server has answered.
answered_twice :
    listed_of (sort_stun true false (asked_at (codes "a") 10 ∷ asked_at (codes "b") 10 ∷ []) twice)
    ≡ (codes "a", 5) ∷ (codes "a", 6) ∷ []
unfolding sort_stun parse bytes_beq lookup emplace insert_or_assign word_at mapped_address
answered_twice = refl

-- A server that was not asked is listed where its answer has no transaction.
answered_unasked :
    listed_of (
      sort_stun true true
        (asked_at (codes "a") 10 ∷ [])
        (Poll.answered (codes "x") (record plain_answer { transaction_id = zeros 12 }) 15 ∷ []))
    ≡ (codes "x", 15) ∷ []
unfolding sort_stun zeros parse bytes_beq lookup emplace insert_or_assign word_at mapped_address
answered_unasked = refl

parse_out_of_bounds_example :
    parse
      (record {
        msg_type = binding_response;
        msg_len = 1000;
        magic_cookie = cookie;
        transaction_id = tid;
        attributes = (0x8022 / 256) ∷ (0x8022 % 256) ∷ 0x03 ∷ 0xE3 ∷ zeros 996;
        size = omega (arith, length-zeros 996);
      })
      tid
    ≡ out_of_bounds
parse_out_of_bounds_example =
    parse_out_of_bounds tid 0x8022 1000 (zeros 996) (λ e. ground arith) (omega arith)
      (length-zeros 996) (omega arith) (omega arith)

-- `a` is nearer to both peers together, and each has a node of its own.
abbrev mine : Rtts
mine = (codes "a:3478", pos 3) ∷ (codes "b", pos 2) ∷ (codes "c", pos 1) ∷ []

abbrev theirs : Rtts
theirs = (codes "b", pos 9) ∷ (codes "a", pos 4) ∷ (codes "d", pos 1) ∷ []

chooses_a : find_best_node mine theirs ≡ codes "a"
unfolding find_best_node normalize_node_ip rfind_byte find_byte bytes_beq
chooses_a = refl

theirs-IsDistinct : IsDistinct theirs
unfolding rtt_of normalize_node_ip rfind_byte find_byte bytes_beq
theirs-IsDistinct = (refl, (refl, (refl, tt)))

find_best_node-least_example :
    (c : ℤ) × (d : ℤ) × Both mine theirs (find_best_node mine theirs) c d
    × (squares c d ≤ squares (pos 2) (pos 9))
unfolding rtt_of normalize_node_ip rfind_byte find_byte bytes_beq
find_best_node-least_example =
    find_best_node-least mine theirs (codes "b") (pos 2) (pos 9) theirs-IsDistinct
      (omega arith, (omega arith, (omega arith, tt)))
      (omega arith, (omega arith, (omega arith, tt))) (record { own = refl; other = refl })

-- Times that are too long for `int`: the worse node is chosen.
overflows :
    find_best_node
      ((codes "x", pos 50000) ∷ (codes "y", pos 3) ∷ [])
      ((codes "x", pos 1) ∷ (codes "y", pos 3) ∷ [])
    ≡ codes "x"
unfolding find_best_node normalize_node_ip rfind_byte find_byte bytes_beq
overflows = refl

find_best_node_tie_example :
    (find_best_node
        ((codes "x", pos 3) ∷ (codes "y", pos 4) ∷ [])
        ((codes "y", pos 3) ∷ (codes "x", pos 4) ∷ [])
      ≡ codes "y")
    × (find_best_node
          ((codes "y", pos 3) ∷ (codes "x", pos 4) ∷ [])
          ((codes "x", pos 3) ∷ (codes "y", pos 4) ∷ [])
        ≡ codes "x")
unfolding lacks
find_best_node_tie_example =
    find_best_node_tie (codes "x") (codes "y") (pos 3) (pos 4) (pos 4) (pos 3)
      (lacks-Lacks b':' (codes "x") refl) (lacks-Lacks b':' (codes "y") refl) (λ e. ground arith)
      refl

pub one_common-NoTie : NoTie ((codes "x", pos 3) ∷ []) ((codes "x", pos 4) ∷ [])
unfolding rtt_of normalize_node_ip rfind_byte find_byte bytes_beq
one_common-NoTie m n a b c d p q same =
    let own = p.own in
    let other = q.own in ground (arith, bytes_beq_iff (codes "x") m, bytes_beq_iff (codes "x") n)

find_best_node_comm_example :
    find_best_node ((codes "x", pos 3) ∷ []) ((codes "x", pos 4) ∷ [])
    ≡ find_best_node ((codes "x", pos 4) ∷ []) ((codes "x", pos 3) ∷ [])
unfolding rtt_of normalize_node_ip rfind_byte find_byte bytes_beq
find_best_node_comm_example =
    find_best_node_comm ((codes "x", pos 3) ∷ []) ((codes "x", pos 4) ∷ []) (codes "x") (pos 3)
      (pos 4) (refl, tt) (refl, tt) (omega arith, tt) (omega arith, tt) one_common-NoTie
      (record { own = refl; other = refl })
