-- ===== src/Stun/Collect.antt =====
-- stun_test.cpp, lines 128 to 225: the requests to the servers, and the loop that collects answers.
-- The socket's answers are the argument `polls`, one for each round; times are in milliseconds since
-- the epoch of the clock. A server is known by the text of its address; `client_ip` is what the
-- pointer `clientIp` gets where it is given.
pub mod Bound
use bff_rtc_base.Base.{
  ℕ, zero, suc, ◌+◌, ◌-◌, ◌≤◌, ◌<◌, ◌≡◌, refl, sym, ◌∙◌, Bool, true, false, ◌||◌, List, [], ◌∷◌,
  ◌++◌, Option, none, some, Bytes, if◌then◌else◌, ◌==◌, nat_eq, bytes_eq, nat_beq_iff, lookup,
  emplace, insert_or_assign, length, length-append, arith, if-cases, is_empty,
}
use bff_rtc_base.Stun.{StunResponse, Parsed, refused, out_of_bounds, client_ip, parse}

pub record Collected : Type 0 where
  pub transaction_map : List (Bytes × Bytes)
  pub time_map : List (Bytes × ℕ)
  pub client_ip : Option Bytes
  pub sorted : List (Bytes × ℕ)

-- A request: its server, its transaction, when it is sent and whether it could be.
pub record Request : Type 0 where
  pub server_key : Bytes
  pub transaction_id : Bytes
  pub sent_at : ℕ
  pub is_sent : Bool

unfoldable pub send_requests : List Request → Collected → Collected
send_requests [] c = c
send_requests (r ∷ requests) c =
    let timed : Collected = record c {
      time_map = insert_or_assign r.server_key r.sent_at c.time_map;
    } in
    let sent : Collected = record timed {
      transaction_map = insert_or_assign r.server_key r.transaction_id c.transaction_map;
    } in
    send_requests requests (if r.is_sent then sent else timed)

-- A round: the time is over, `poll` fails, it has nothing to read, `recvfrom` fails, or there is an
-- answer.
pub data Poll : Type 0 where
  timed_out poll_failed nothing_yet recv_failed : Poll
  answered : (server_key : Bytes) → (resp : StunResponse) → (now : ℕ) → Poll

-- `undefined_read` is a read behind the answer.
pub data Collecting : Type 0 where
  goes_on stops : Collected → Collecting
  undefined_read : Collecting

abbrev or_default {ℓ} : {A : Type ℓ} → A → Option A → A
or_default d none = d
or_default d (some x) = x

-- What `operator[]` makes for a server that was not asked.
abbrev no_transaction : Bytes
no_transaction = 0 ∷ 0 ∷ 0 ∷ 0 ∷ 0 ∷ 0 ∷ 0 ∷ 0 ∷ 0 ∷ 0 ∷ 0 ∷ 0 ∷ []

abbrev list_answer :
    (servers : ℕ) → (fastest_only : Bool) → Bytes → ℕ → Parsed → Collected → Collecting
list_answer servers fastest_only server_key elapsed refused c = goes_on c
list_answer servers fastest_only server_key elapsed out_of_bounds c = undefined_read
list_answer servers fastest_only server_key elapsed (client_ip ip) c =
    let listed : Collected = record c {
      client_ip = some ip;
      sorted = c.sorted ++ (server_key, elapsed) ∷ [];
    } in
    if length listed.sorted == servers || fastest_only then stops listed else goes_on listed

unfoldable pub poll_once : (servers : ℕ) → (fastest_only : Bool) → Poll → Collected → Collecting
poll_once servers fastest_only timed_out c = stops c
poll_once servers fastest_only poll_failed c = stops c
poll_once servers fastest_only nothing_yet c = goes_on c
poll_once servers fastest_only recv_failed c = stops c
poll_once servers fastest_only (answered server_key resp now) c =
    let asked : Collected = record c {
      time_map = emplace server_key 0 c.time_map;
      transaction_map = emplace server_key no_transaction c.transaction_map;
    } in
    list_answer servers fastest_only server_key (now - or_default 0 (lookup server_key c.time_map))
      (parse resp (or_default no_transaction (lookup server_key c.transaction_map))) asked

unfoldable pub collect : (servers : ℕ) → (fastest_only : Bool) → List Poll → Collected → Collecting
unfolding poll_once
collect servers fastest_only [] c = goes_on c
collect servers fastest_only (p ∷ polls) c = elim (poll_once servers fastest_only p c) [
  | goes_on next ↦ collect servers fastest_only polls next
  | stops done ↦ stops done
  | undefined_read ↦ undefined_read
]

abbrev pub nothing_collected : Collected
nothing_collected = record { transaction_map = []; time_map = []; client_ip = none; sorted = [] }

-- `SortStun`; `opens` tells whether there is a socket.
unfoldable pub sort_stun : (opens fastest_only : Bool) → List Request → List Poll → Collecting
unfolding send_requests collect
sort_stun opens fastest_only [] polls = stops nothing_collected
sort_stun opens fastest_only (r ∷ requests) polls =
    let collected =
      collect (length (r ∷ requests)) fastest_only polls
        (send_requests (r ∷ requests) nothing_collected) in
    if opens then collected else stops nothing_collected
