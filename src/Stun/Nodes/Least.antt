-- ===== src/Stun/Nodes/Least.antt =====
-- The choice, as long as `int` does not overflow (stun_test.cpp, lines 277 to 280 and 300 to 320).
use bff_rtc_base.Base.{
  ℕ, zero, suc, ◌+◌, ◌*◌, ◌^◌, ◌≤◌, ◌≡◌, inl, inr, [], ◌∷◌, some, Bytes, ◌==◌, bytes_eq, abs_ℕ, ℤ,
  arith, Bool-cases,
}
use mathlib.Core.Path.{subst}
use bff_rtc_base.Stun.Nodes.{Rtts, loss, squares, normalize_node_ip, find_best_node}
use bff_rtc_base.Stun.Nodes.Loop.{rtt_of, IsDistinct}
use bff_rtc_base.Stun.Nodes.Best.{least_loss}

-- Both squares and their sum fit in `int`.
abbrev pub IsSmall : Rtts → Type 0
IsSmall [] = Unit
IsSmall ((raw, rtt) ∷ rtts) = (abs_ℕ rtt ≤ 32767) × IsSmall rtts

rtt_of-IsSmall :
    (n : Bytes) (rtts : Rtts) (a : ℤ) → rtt_of n rtts ≡ some a → IsSmall rtts → abs_ℕ a ≤ 32767
unfolding rtt_of
rtt_of-IsSmall n [] a h small = cc
rtt_of-IsSmall n ((raw, rtt) ∷ rtts) a h small = elim (Bool-cases (normalize_node_ip raw == n)) [
  | inl same ↦ let found : rtt ≡ a = ground arith in subst (λ x. abs_ℕ x ≤ 32767) found small.0
  | inr other ↦ rtt_of-IsSmall n rtts a (ground arith) small.1
]

times_le : (x y z : ℕ) → x ≤ y → z * x ≤ z * y
times_le x y zero h = omega arith
times_le x y (suc z) h = omega (arith, times_le x y z h)

square_le : (x y : ℕ) → x ≤ y → x * x ≤ y * y
square_le x y h = omega (arith, times_le x y x h, times_le x y y h)

loss-small : (a b : ℤ) → abs_ℕ a ≤ 32767 → abs_ℕ b ≤ 32767 → loss a b ≡ squares a b + 2 ^ 31
loss-small a b ha hb =
    let p = square_le (abs_ℕ a) 32767 ha in let q = square_le (abs_ℕ b) 32767 hb in omega arith

-- Two peers' measurements of a node.
pub record Both (rtts1 rtts2 : Rtts) (n : Bytes) (a b : ℤ) : Type 0 where
  pub own : rtt_of n rtts1 ≡ some a
  pub other : rtt_of n rtts2 ≡ some b

pub Both-loss :
    (rtts1 rtts2 : Rtts) (n : Bytes) (a b : ℤ)
    → IsSmall rtts1
    → IsSmall rtts2
    → Both rtts1 rtts2 n a b
    → loss a b ≡ squares a b + 2 ^ 31
Both-loss rtts1 rtts2 n a b s1 s2 m =
    loss-small a b (rtt_of-IsSmall n rtts1 a m.own s1) (rtt_of-IsSmall n rtts2 b m.other s2)

-- Where both peers have measured a node, the node chosen is one that both have measured, and no
-- node that both have measured has a smaller sum of the squares of its times; the second list
-- names no node twice, and no time is more than 32767 away from zero, so that `int` does not overflow.
pub find_best_node-least :
    (rtts1 rtts2 : Rtts) (n : Bytes) (a b : ℤ)
    → IsDistinct rtts2
    → IsSmall rtts1
    → IsSmall rtts2
    → Both rtts1 rtts2 n a b
    → (c : ℤ) × (d : ℤ) × Both rtts1 rtts2 (find_best_node rtts1 rtts2) c d
      × (squares c d ≤ squares a b)
find_best_node-least rtts1 rtts2 n a b distinct s1 s2 m =
    let best_ = find_best_node rtts1 rtts2 in
    let (key, (c, d, own, other, is_loss), le) =
      least_loss rtts1 rtts2 n a b distinct m.own m.other in
    let chosen_both : Both rtts1 rtts2 best_ c d = record { own = own; other = other } in
    let p = Both-loss rtts1 rtts2 n a b s1 s2 m in
    let q = Both-loss rtts1 rtts2 best_ c d s1 s2 chosen_both in (c, d, chosen_both, omega arith)
