-- ===== src/Stun/Nodes/Loop.antt =====
-- The loop of the choice, as a search for the least loss over the first list.
use bff_rtc_base.Base.{
  ℕ, ◌≡◌, ◌≢◌, refl, ap, ◌∙◌, inl, inr, [], ◌∷◌, Option, none, some, Bytes, if◌then◌else◌, ltb,
  ◌==◌, nat_eq, bytes_eq, bytes_beq_iff, ℤ, arith, Option-cases,
}
use bff_rtc_base.Stun.Nodes.{
  Rtts, loss, normalize_node_ip, take_entry, LossMap, assign, collect_losses, first_ip,
  find_best_node,
}

unfoldable pub rtt_of : Bytes → Rtts → Option ℤ
rtt_of ip [] = none
rtt_of ip ((raw, rtt) ∷ rtts) = if normalize_node_ip raw == ip then some rtt else rtt_of ip rtts

-- No node is measured twice.
abbrev pub IsDistinct : Rtts → Type 0
IsDistinct [] = Unit
IsDistinct ((raw, rtt) ∷ rtts) = (rtt_of (normalize_node_ip raw) rtts ≡ none) × IsDistinct rtts

pub take_entry-none : (ip : Bytes) (rtts : Rtts) → take_entry ip rtts ≡ none → rtt_of ip rtts ≡ none
unfolding take_entry rtt_of
take_entry-none ip [] h = refl
take_entry-none ip ((raw, rtt) ∷ rtts) h = ground (arith, take_entry-none ip rtts)

pub take_entry-some :
    (ip : Bytes) (rtts : Rtts) (rtt : ℤ) (rest : Rtts)
    → take_entry ip rtts ≡ some (rtt, rest)
    → rtt_of ip rtts ≡ some rtt
unfolding take_entry rtt_of
take_entry-some ip [] rtt rest h = cc
take_entry-some ip ((raw, r) ∷ rtts) rtt rest h = elim (Option-cases (take_entry ip rtts)) [
  | inl e ↦ ground arith
  | inr ((r', rest'), e) ↦ ground (arith, take_entry-some ip rtts r' rest' e)
]

-- The other nodes are as they were.
pub take_entry-other :
    (ip k : Bytes) (rtts : Rtts) (rtt : ℤ) (rest : Rtts)
    → take_entry ip rtts ≡ some (rtt, rest)
    → k ≢ ip
    → rtt_of k rest ≡ rtt_of k rtts
unfolding take_entry rtt_of
take_entry-other ip k [] rtt rest h ne = cc
take_entry-other ip k ((raw, r) ∷ rtts) rtt rest h ne = elim (Option-cases (take_entry ip rtts)) [
  | inl e ↦
      ground
        (arith, bytes_beq_iff (normalize_node_ip raw) ip, bytes_beq_iff (normalize_node_ip raw) k)
  | inr ((r', rest'), e) ↦ ground (
    arith,
    bytes_beq_iff (normalize_node_ip raw) ip,
    bytes_beq_iff (normalize_node_ip raw) k,
    take_entry-other ip k rtts r' rest' e,
  )
]

-- The node that was taken is there no more.
pub take_entry-IsDistinct :
    (ip : Bytes) (rtts : Rtts) (rtt : ℤ) (rest : Rtts)
    → take_entry ip rtts ≡ some (rtt, rest)
    → IsDistinct rtts
    → (rtt_of ip rest ≡ none) × IsDistinct rest
unfolding take_entry rtt_of
take_entry-IsDistinct ip [] rtt rest h d = cc
take_entry-IsDistinct ip ((raw, r) ∷ rtts) rtt rest h d = elim (Option-cases (take_entry ip rtts)) [
  | inl e ↦ ground (arith, bytes_beq_iff (normalize_node_ip raw) ip)
  | inr ((r', rest'), e) ↦ ground (
    arith,
    bytes_beq_iff (normalize_node_ip raw) ip,
    take_entry-IsDistinct ip rtts r' rest' e,
    take_entry-other ip (normalize_node_ip raw) rtts r' rest' e,
  )
]

-- The first entry of the map, which the choice reads; `assign` never looks behind it to set it.
abbrev head? : LossMap → Option (ℕ × Bytes)
head? [] = none
head? (e ∷ m) = some e

abbrev pub better : ℕ → Bytes → Option (ℕ × Bytes) → ℕ × Bytes
better key ip none = (key, ip)
better key ip (some (k, i)) = if ltb key k then (key, ip) else if key == k then (k, ip) else (k, i)

head?-assign :
    (key : ℕ) (ip : Bytes) (m : LossMap) → head? (assign key ip m) ≡ some (better key ip (head? m))
unfolding assign
head?-assign key ip [] = refl
head?-assign key ip ((k, i) ∷ m) = ground arith

-- The loop with the first entry alone.
unfoldable pub best : Rtts → Rtts → Option (ℕ × Bytes) → Option (ℕ × Bytes)
best [] rtts2 acc = acc
best ((raw, rtt) ∷ rtts1) rtts2 acc =
    let ip = normalize_node_ip raw in
    elim (take_entry ip rtts2) [
      | none ↦ best rtts1 rtts2 acc
      | some (other, rest) ↦ best rtts1 rest (some (better (loss rtt other) ip acc))
    ]

head?-collect_losses :
    (rtts1 rtts2 : Rtts) (m : LossMap)
    → head? (collect_losses rtts1 rtts2 m) ≡ best rtts1 rtts2 (head? m)
unfolding collect_losses best
head?-collect_losses [] rtts2 m = refl
head?-collect_losses ((raw, rtt) ∷ rtts1) rtts2 m =
    elim (Option-cases (take_entry (normalize_node_ip raw) rtts2)) [
      | inl e ↦ rw (e, collect_losses, best) (head?-collect_losses rtts1 rtts2 m)
      | inr ((other, rest), e) ↦
          rw (e, collect_losses, best)
            (head?-collect_losses rtts1 rest _
              ∙ ap (best rtts1 rest) (head?-assign (loss rtt other) (normalize_node_ip raw) m))
    ]

abbrev pub ip_of : Option (ℕ × Bytes) → Bytes
ip_of none = []
ip_of (some (k, ip)) = ip

first_ip-head? : (m : LossMap) → first_ip m ≡ ip_of (head? m)
unfolding first_ip
first_ip-head? [] = refl
first_ip-head? ((k, ip) ∷ m) = refl

pub find_best_node-best :
    (rtts1 rtts2 : Rtts) → find_best_node rtts1 rtts2 ≡ ip_of (best rtts1 rtts2 none)
unfolding find_best_node
find_best_node-best rtts1 rtts2 =
    first_ip-head? (collect_losses rtts1 rtts2 []) ∙ ap ip_of (head?-collect_losses rtts1 rtts2 [])
