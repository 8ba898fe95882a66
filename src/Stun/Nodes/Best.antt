-- ===== src/Stun/Nodes/Best.antt =====
-- The node that is chosen, as the loss in `int` has it.
use bff_rtc_base.Base.{
  ℕ, ◌≤◌, ◌≡◌, ◌≢◌, refl, sym, ap, ◌∙◌, ◌⊎◌, inl, inr, [], ◌∷◌, Option, none, some, Bytes, ltb,
  ◌==◌, nat_eq, bytes_eq, bytes_beq_iff, ℤ, arith, Option-cases, Bool-cases,
}
use mathlib.Core.Option.{some-injective}
use mathlib.Core.Path.{subst}
use bff_rtc_base.Stun.Nodes.{Rtts, loss, normalize_node_ip, take_entry, find_best_node}
use bff_rtc_base.Stun.Nodes.Loop.{
  rtt_of, IsDistinct, take_entry-none, take_entry-some, take_entry-other, take_entry-IsDistinct,
  better, best, ip_of, find_best_node-best,
}

-- What a peer has measured for a node.
-- The loss is at most `bound`.
abbrev AtMost : ℕ → Option (ℕ × Bytes) → Type 0
AtMost bound none = ⊥
AtMost bound (some (k, ip)) = k ≤ bound

better-AtMost :
    (key bound : ℕ) (ip : Bytes) (acc : Option (ℕ × Bytes))
    → AtMost bound acc
    → AtMost bound (some (better key ip acc))
better-AtMost key bound ip none h = elim h [ ]
better-AtMost key bound ip (some (k, i)) h = ground arith

better-le :
    (key : ℕ) (ip : Bytes) (acc : Option (ℕ × Bytes)) → AtMost key (some (better key ip acc))
better-le key ip none = ground arith
better-le key ip (some (k, i)) = ground arith

-- The loop never gives up a loss that it has found.
best-AtMost :
    (rtts1 rtts2 : Rtts) (acc : Option (ℕ × Bytes)) (bound : ℕ)
    → AtMost bound acc
    → AtMost bound (best rtts1 rtts2 acc)
unfolding best
best-AtMost [] rtts2 acc bound h = h
best-AtMost ((raw, rtt) ∷ rtts1) rtts2 acc bound h =
    let ip = normalize_node_ip raw in
    elim (Option-cases (take_entry (normalize_node_ip raw) rtts2)) [
      | inl e ↦ rw (e, best) (best-AtMost rtts1 rtts2 acc bound h)
      | inr ((other, rest), e) ↦
          rw (e, best)
            (best-AtMost rtts1 rest _ bound (better-AtMost (loss rtt other) bound ip acc h))
    ]

-- Every node that both peers have measured is no better than the one found.
best-le :
    (rtts1 rtts2 : Rtts) (acc : Option (ℕ × Bytes)) (n : Bytes) (a b : ℤ)
    → rtt_of n rtts1 ≡ some a
    → rtt_of n rtts2 ≡ some b
    → AtMost (loss a b) (best rtts1 rtts2 acc)
unfolding best rtt_of
best-le [] rtts2 acc n a b h k = cc
best-le ((raw, rtt) ∷ rtts1) rtts2 acc n a b h k =
    let ip = normalize_node_ip raw in
    elim (Option-cases (take_entry (normalize_node_ip raw) rtts2)) [
      | inl e ↦
          let later : rtt_of n rtts1 ≡ some a =
            ground (arith, bytes_beq_iff ip n, take_entry-none ip rtts2 e) in
          rw (e, best) (best-le rtts1 rtts2 acc n a b later k)
      | inr ((other, rest), e) ↦ elim (Bool-cases (ip == n)) [
        | inl same ↦
            let name : ip ≡ n = (bytes_beq_iff ip n).0 same in
            let losses : loss rtt other ≡ loss a b =
              ground
                (arith, ap (λ i. rtt_of i rtts2) name, take_entry-some ip rtts2 other rest e) in
            rw (e, best)
              (best-AtMost rtts1 rest _ (loss a b) (rw losses (better-le (loss a b) ip acc)))
        | inr differs ↦
            let later : rtt_of n rtts1 ≡ some a = ground arith in
            let ne : n ≢ ip = λ p. ground (arith, bytes_beq_iff ip n) in
            rw (e, best)
              (best-le rtts1 rest _ n a b later (take_entry-other ip n rtts2 other rest e ne ∙ k))
      ]
    ]

-- Both peers have measured the node, and this is its loss.
abbrev pub Measured : Rtts → Rtts → ℕ → Bytes → Type 0
Measured rtts1 rtts2 key ip =
    (a : ℤ) × (b : ℤ) × (rtt_of ip rtts1 ≡ some a) × (rtt_of ip rtts2 ≡ some b) × (key ≡ loss a b)

-- What is found was there before, or both peers have measured it.
abbrev FoundIn : Rtts → Rtts → Option (ℕ × Bytes) → ℕ × Bytes → Type 0
FoundIn rtts1 rtts2 acc e = (acc ≡ some e) ⊎ Measured rtts1 rtts2 e.0 e.1

better-cases :
    (key : ℕ) (ip : Bytes) (acc : Option (ℕ × Bytes))
    → (better key ip acc ≡ (key, ip)) ⊎ (acc ≡ some (better key ip acc))
better-cases key ip none = inl refl
better-cases key ip (some (k, i)) = elim (Bool-cases (ltb key k)) [
  | inl less ↦ rw less (inl refl)
  | inr more ↦ rw more (elim (Bool-cases (key == k)) [
    | inl same ↦ rw same (inl (ground arith))
    | inr other ↦ rw other (inr refl)
  ])
]

-- What the loop finds in the entries that are left, it finds in all.
module _ (raw : Bytes) (rtt other : ℤ) (rtts1 rtts2 rest : Rtts) where
  abbrev name : Bytes
  name = normalize_node_ip raw

  Measured-skip :
      (k : ℕ) (i : Bytes)
      → rtt_of name rtts2 ≡ none
      → Measured rtts1 rtts2 k i
      → Measured ((raw, rtt) ∷ rtts1) rtts2 k i
  unfolding rtt_of
  Measured-skip k i none_ (a, b, h, m, e) = (a, b, ground (arith, bytes_beq_iff name i), m, e)

  Measured-take :
      (k : ℕ) (i : Bytes)
      → take_entry name rtts2 ≡ some (other, rest)
      → IsDistinct rtts2
      → Measured rtts1 rest k i
      → Measured ((raw, rtt) ∷ rtts1) rtts2 k i
  unfolding rtt_of
  Measured-take k i t d (a, b, h, m, e) =
      let gone = (take_entry-IsDistinct name rtts2 other rest t d).0 in
      let ne : i ≢ name = λ p. ground (arith, ap (λ n. rtt_of n rest) p) in
      (
        a,
        b,
        ground (arith, bytes_beq_iff name i),
        sym (take_entry-other name i rtts2 other rest t ne) ∙ m,
        e,
      )

  Measured-here :
      take_entry name rtts2 ≡ some (other, rest)
      → Measured ((raw, rtt) ∷ rtts1) rtts2 (loss rtt other) name
  unfolding rtt_of
  Measured-here t = (
    rtt,
    other,
    ground (arith, bytes_beq_iff name name),
    take_entry-some name rtts2 other rest t,
    refl,
  )

best-FoundIn :
    (rtts1 rtts2 : Rtts) (acc : Option (ℕ × Bytes)) (e : ℕ × Bytes)
    → IsDistinct rtts2
    → best rtts1 rtts2 acc ≡ some e
    → FoundIn rtts1 rtts2 acc e
unfolding best
best-FoundIn [] rtts2 acc e d h = inl h
best-FoundIn ((raw, rtt) ∷ rtts1) rtts2 acc e d h =
    let ip = normalize_node_ip raw in
    elim (Option-cases (take_entry (normalize_node_ip raw) rtts2)) [
      | inl t ↦ elim (best-FoundIn rtts1 rtts2 acc e d (rw (t, best) at h)) [
        | inl old ↦ inl old
        | inr new ↦
            inr
              (Measured-skip raw rtt rtt rtts1 rtts2 rtts2 e.0 e.1 (take_entry-none ip rtts2 t) new)
      ]
      | inr ((other, rest), t) ↦
          let later =
            best-FoundIn rtts1 rest (some (better (loss rtt other) ip acc)) e
              (take_entry-IsDistinct ip rtts2 other rest t d).1 (rw (t, best) at h) in
          elim later [
            | inr new ↦ inr (Measured-take raw rtt other rtts1 rtts2 rest e.0 e.1 t d new)
            | inl same ↦ elim (better-cases (loss rtt other) ip acc) [
              | inl hit ↦ inr (
                  subst (λ p. Measured ((raw, rtt) ∷ rtts1) rtts2 p.0 p.1)
                    (sym hit ∙ some-injective _ _ same)
                    (Measured-here raw rtt other rtts1 rtts2 rest t))
              | inr old ↦ inl (old ∙ same)
            ]
          ]
    ]

-- What `best` finds from nothing.
abbrev Chosen : Rtts → Rtts → Type 0
Chosen rtts1 rtts2 =
    (key : ℕ) × Measured rtts1 rtts2 key (find_best_node rtts1 rtts2)
    × (best rtts1 rtts2 none ≡ some (key, find_best_node rtts1 rtts2))

chosen :
    (rtts1 rtts2 : Rtts) (e : ℕ × Bytes)
    → IsDistinct rtts2
    → best rtts1 rtts2 none ≡ some e
    → Chosen rtts1 rtts2
chosen rtts1 rtts2 e d found =
    let name : find_best_node rtts1 rtts2 ≡ e.1 =
      find_best_node-best rtts1 rtts2 ∙ ap ip_of found in
    elim (best-FoundIn rtts1 rtts2 none e d found) [
      | inl absent ↦ cc
      | inr m ↦ (e.0, rw name m, rw name found)
    ]

-- The loss of the chosen node, as `int` has it, is the least one.
pub least_loss :
    (rtts1 rtts2 : Rtts) (n : Bytes) (a b : ℤ)
    → IsDistinct rtts2
    → rtt_of n rtts1 ≡ some a
    → rtt_of n rtts2 ≡ some b
    → (key : ℕ) × Measured rtts1 rtts2 key (find_best_node rtts1 rtts2) × (key ≤ loss a b)
least_loss rtts1 rtts2 n a b d h k =
    let bound = best-le rtts1 rtts2 none n a b h k in
    elim (Option-cases (best rtts1 rtts2 none)) [
      | inl e ↦ absurd (rw e at bound)
      | inr (e, found) ↦
          let (key, m, is_key) = chosen rtts1 rtts2 e d found in (key, m, rw is_key at bound)
    ]
