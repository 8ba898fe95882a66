-- ===== src/Stun/Nodes.antt =====
-- The choice of the node that suits two peers best.
pub mod Loop
pub mod Best
pub mod Least
pub mod Agree
use bff_rtc_base.Base.{
  ℕ, suc, ◌+◌, ◌*◌, ◌%◌, ◌^◌, Bool, true, false, ◌||◌, ◌&&◌, List, [], ◌∷◌, Option, none, some,
  Bytes, if◌then◌else◌, ltb, leb, ◌==◌, nat_eq, bytes_eq, length, drop, substr, is_digit, find_byte,
  rfind_byte, ℤ, abs_ℕ,
}

-- Addresses with their round trip times in milliseconds.
abbrev pub Rtts : Type 0
Rtts = List (Bytes × ℤ)

abbrev pub squares : ℤ → ℤ → ℕ
squares rtt1 rtt2 = abs_ℕ rtt1 * abs_ℕ rtt1 + abs_ℕ rtt2 * abs_ℕ rtt2

-- The `int`, plus 2^31: so it is a natural number, in the order of `int`. An overflow, which C++
-- leaves undefined, wraps around.
abbrev pub loss : ℤ → ℤ → ℕ
loss rtt1 rtt2 = (squares rtt1 rtt2 + 2 ^ 31) % 2 ^ 32

all_digits : Bytes → Bool
all_digits [] = true
all_digits (c ∷ s) = is_digit c && all_digits s

-- Cuts off a port; whatever has another colon, or anything but digits behind it, is kept.
unfoldable pub normalize_node_ip : Bytes → Bytes
unfolding all_digits
normalize_node_ip ip = elim (rfind_byte b':' ip) [
  | none ↦ ip
  | some colon ↦
      if colon == 0 || leb (length ip) (colon + 1) then ip else elim (find_byte b':' ip) [
        | none ↦ ip
        | some first ↦
            if first == colon && all_digits (drop (colon + 1) ip) then substr ip 0 colon else ip
      ]
]

-- `find_if` and, where it finds an entry, `erase`: the entry's time and the other entries.
unfoldable pub take_entry : Bytes → Rtts → Option (ℤ × Rtts)
take_entry ip [] = none
take_entry ip ((raw, rtt) ∷ rtts) =
    let rest = take_entry ip rtts in
    if normalize_node_ip raw == ip
    then some (rtt, rtts)
    else elim rest [ none ↦ none | some (found, others) ↦ some (found, (raw, rtt) ∷ others) ]

-- `std::map<int, string>`, in the order of its keys, which are kept as `loss` gives them.
abbrev pub LossMap : Type 0
LossMap = List (ℕ × Bytes)

-- `m[key] = ip`
unfoldable pub assign : ℕ → Bytes → LossMap → LossMap
assign key ip [] = (key, ip) ∷ []
assign key ip ((k, i) ∷ m) =
    let rest = assign key ip m in
    if ltb key k then (key, ip) ∷ (k, i) ∷ m else if key == k then (k, ip) ∷ m else (k, i) ∷ rest

unfoldable pub collect_losses : Rtts → Rtts → LossMap → LossMap
unfolding assign take_entry
collect_losses [] rtts2 m = m
collect_losses ((raw, rtt) ∷ rtts1) rtts2 m =
    let ip = normalize_node_ip raw in
    elim (take_entry ip rtts2) [
      | none ↦ collect_losses rtts1 rtts2 m
      | some (other, rest) ↦ collect_losses rtts1 rest (assign (loss rtt other) ip m)
    ]

first_ip : LossMap → Bytes
first_ip [] = []
first_ip ((k, ip) ∷ m) = ip

-- Empty where the peers have no node in common.
unfoldable pub find_best_node : Rtts → Rtts → Bytes
unfolding collect_losses first_ip
find_best_node rtts1 rtts2 = first_ip (collect_losses rtts1 rtts2 [])
