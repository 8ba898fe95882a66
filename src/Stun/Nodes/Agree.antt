-- ===== src/Stun/Nodes/Agree.antt =====
-- Whether the two peers, who run the choice on the same measurements with the lists exchanged,
-- choose the same node.
use bff_rtc_base.Base.{
  refl, ◌≡◌, ◌≢◌, sym, ◌∙◌, [], ◌∷◌, Bytes, bytes_eq, bytes_beq_iff, ℤ, arith, Lacks,
  rfind_byte-Lacks,
}
use mathlib.Core.Option.{some-injective}
use bff_rtc_base.Stun.Nodes.{Rtts, loss, squares, normalize_node_ip, find_best_node}
use bff_rtc_base.Stun.Nodes.Loop.{IsDistinct}
use bff_rtc_base.Stun.Nodes.Least.{IsSmall, Both, find_best_node-least}

-- No two nodes that both peers have measured have the same sum of squares.
abbrev pub NoTie : Rtts → Rtts → Type 0
NoTie rtts1 rtts2 =
    (m n : Bytes) (a b c d : ℤ)
    → Both rtts1 rtts2 m a b
    → Both rtts1 rtts2 n c d
    → squares a b ≡ squares c d
    → m ≡ n

-- A name without a colon is kept.
normalize_node_ip-Lacks : (ip : Bytes) → Lacks b':' ip → normalize_node_ip ip ≡ ip
unfolding normalize_node_ip
normalize_node_ip-Lacks ip h = rw (rfind_byte-Lacks b':' ip h, normalize_node_ip)

-- Two nodes, named without a colon, with the same loss and listed in opposite orders: each peer
-- chooses the other node.
pub find_best_node_tie :
    (x y : Bytes) (a b c d : ℤ)
    → Lacks b':' x
    → Lacks b':' y
    → x ≢ y
    → loss a b ≡ loss c d
    → let mine : Rtts = (x, a) ∷ (y, c) ∷ [] in
      let theirs : Rtts = (y, d) ∷ (x, b) ∷ [] in
      (find_best_node mine theirs ≡ y) × (find_best_node theirs mine ≡ x)
unfolding find_best_node
find_best_node_tie x y a b c d hx hy ne tie = ground (
  arith,
  normalize_node_ip-Lacks x hx,
  normalize_node_ip-Lacks y hy,
  bytes_beq_iff x y,
  bytes_beq_iff y x,
  bytes_beq_iff x x,
  bytes_beq_iff y y,
)

Both-swap :
    (rtts1 rtts2 : Rtts) (n : Bytes) (a b : ℤ) → Both rtts1 rtts2 n a b → Both rtts2 rtts1 n b a
Both-swap rtts1 rtts2 n a b m = record { own = m.other; other = m.own }

-- A peer measures a node once.
Both-same :
    (rtts1 rtts2 : Rtts) (n : Bytes) (a b c d : ℤ)
    → Both rtts1 rtts2 n a b
    → Both rtts1 rtts2 n c d
    → squares a b ≡ squares c d
Both-same rtts1 rtts2 n a b c d m m' =
    let p : a ≡ c = some-injective _ _ (sym m.own ∙ m'.own) in
    let q : b ≡ d = some-injective _ _ (sym m.other ∙ m'.other) in rw (p, q) refl

-- Without a tie both peers choose the same node, if they have one in common; no list names a node
-- twice, and no time is more than 32767 away from zero.
pub find_best_node_comm :
    (rtts1 rtts2 : Rtts) (n : Bytes) (a b : ℤ)
    → IsDistinct rtts1
    → IsDistinct rtts2
    → IsSmall rtts1
    → IsSmall rtts2
    → NoTie rtts1 rtts2
    → Both rtts1 rtts2 n a b
    → find_best_node rtts1 rtts2 ≡ find_best_node rtts2 rtts1
find_best_node_comm rtts1 rtts2 n a b d1 d2 s1 s2 tie m =
    let x = find_best_node rtts1 rtts2 in
    let y = find_best_node rtts2 rtts1 in
    let (e, f, y_back, _) =
      find_best_node-least rtts2 rtts1 n b a d1 s2 s1 (Both-swap rtts1 rtts2 n a b m) in
    let y_both = Both-swap rtts2 rtts1 y e f y_back in
    let (g, h, x_both, x_le) = find_best_node-least rtts1 rtts2 y f e d2 s1 s2 y_both in
    let (e', f', y_again, y_le) =
      find_best_node-least rtts2 rtts1 x h g d1 s2 s1 (Both-swap rtts1 rtts2 x g h x_both) in
    let same = Both-same rtts2 rtts1 y e f e' f' y_back y_again in
    tie x y g h f e x_both y_both (omega arith)
