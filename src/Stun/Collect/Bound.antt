-- ===== src/Stun/Collect/Bound.antt =====
-- How many answers `SortStun` lists (stun_test.cpp, lines 181 to 222).
use bff_rtc_base.Base.{
  ℕ, suc, ◌+◌, ◌≤◌, ◌<◌, ◌≡◌, refl, sym, ◌∙◌, Bool, true, false, ◌||◌, List, [], ◌∷◌, ◌++◌, Bytes,
  ◌==◌, nat_eq, nat_beq_iff, length, length-append, arith, if-cases, if-both,
}
use mathlib.Core.Path.{subst}
use bff_rtc_base.Stun.{Parsed, refused, out_of_bounds, client_ip}
use bff_rtc_base.Stun.Collect.{
  Collected, Request, Poll, timed_out, poll_failed, nothing_yet, recv_failed, answered, Collecting,
  goes_on, stops, undefined_read, nothing_collected, send_requests, list_answer, poll_once, collect,
  sort_stun,
}

-- The most answers that are wanted.
abbrev pub wanted : (servers : ℕ) → (fastest_only : Bool) → ℕ
wanted servers true = 1
wanted servers false = servers

-- While the loop goes on there are fewer answers, and at its end no more.
abbrev pub IsWithin : ℕ → Collecting → Type 0
IsWithin most (goes_on c) = length c.sorted < most
IsWithin most (stops c) = length c.sorted ≤ most
IsWithin most undefined_read = Unit

grown :
    (servers : ℕ) (fastest_only : Bool) (old new : ℕ)
    → old < wanted servers fastest_only
    → new ≡ old + 1
    → new ≤ wanted servers fastest_only
grown servers fastest_only old new h e = omega arith

not_all :
    (servers : ℕ) (fastest_only : Bool) (new : ℕ)
    → new ≤ wanted servers fastest_only
    → (new == servers || fastest_only) ≡ false
    → new < wanted servers fastest_only
not_all servers true new h ne = ground (arith, nat_beq_iff new servers)
not_all servers false new h ne = ground (arith, nat_beq_iff new servers)

list_answer-IsWithin :
    (servers : ℕ) (fastest_only : Bool) (server_key : Bytes) (elapsed : ℕ) (parsed : Parsed)
    (c : Collected)
    → length c.sorted < wanted servers fastest_only
    → IsWithin
        (wanted servers fastest_only)
        (list_answer servers fastest_only server_key elapsed parsed c)
list_answer-IsWithin servers fastest_only server_key elapsed refused c h = h
list_answer-IsWithin servers fastest_only server_key elapsed out_of_bounds c h = tt
list_answer-IsWithin servers fastest_only server_key elapsed (client_ip ip) c h =
    let more =
      grown servers fastest_only (length c.sorted) (length (c.sorted ++ (server_key, elapsed) ∷ []))
        h (length-append c.sorted ((server_key, elapsed) ∷ [])) in
    if-cases (IsWithin (wanted servers fastest_only))
      (length (c.sorted ++ (server_key, elapsed) ∷ []) == servers || fastest_only) (λ _. more)
      (λ ne. not_all servers fastest_only (length (c.sorted ++ (server_key, elapsed) ∷ [])) more ne)

less : (a b : ℕ) → a < b → a ≤ b
less a b h = omega arith

poll_once-IsWithin :
    (servers : ℕ) (fastest_only : Bool) (p : Poll) (c : Collected)
    → length c.sorted < wanted servers fastest_only
    → IsWithin (wanted servers fastest_only) (poll_once servers fastest_only p c)
unfolding poll_once
poll_once-IsWithin servers fastest_only timed_out c h = less _ _ h
poll_once-IsWithin servers fastest_only poll_failed c h = less _ _ h
poll_once-IsWithin servers fastest_only nothing_yet c h = h
poll_once-IsWithin servers fastest_only recv_failed c h = less _ _ h
poll_once-IsWithin servers fastest_only (answered server_key resp now) c h =
    list_answer-IsWithin servers fastest_only server_key _ _ _ h

-- A round, then the rest of the loop where it goes on.
after :
    (servers : ℕ) (fastest_only : Bool) (polls : List Poll) (o : Collecting)
    → IsWithin (wanted servers fastest_only) o
    → ((next : Collected)
        → length next.sorted < wanted servers fastest_only
        → IsWithin (wanted servers fastest_only) (collect servers fastest_only polls next))
    → IsWithin (wanted servers fastest_only) (elim o [
      | goes_on next ↦ collect servers fastest_only polls next
      | stops done ↦ stops done
      | undefined_read ↦ undefined_read
    ])
after servers fastest_only polls (goes_on next) h rest = rest next h
after servers fastest_only polls (stops done) h rest = h
after servers fastest_only polls undefined_read h rest = tt

collect-IsWithin :
    (servers : ℕ) (fastest_only : Bool) (polls : List Poll) (c : Collected)
    → length c.sorted < wanted servers fastest_only
    → IsWithin (wanted servers fastest_only) (collect servers fastest_only polls c)
unfolding collect
collect-IsWithin servers fastest_only [] c h = h
collect-IsWithin servers fastest_only (p ∷ polls) c h =
    after servers fastest_only polls (poll_once servers fastest_only p c)
      (poll_once-IsWithin servers fastest_only p c h)
      (λ next. collect-IsWithin servers fastest_only polls next)

send_requests-sorted :
    (requests : List Request) (c : Collected) → (send_requests requests c).sorted ≡ c.sorted
unfolding send_requests
send_requests-sorted [] c = refl
send_requests-sorted (r ∷ requests) c =
    send_requests-sorted requests _
    ∙ if-both (λ (t : Collected). t.sorted ≡ c.sorted) r.is_sent refl refl

positive : (n : ℕ) (fastest_only : Bool) → 0 < wanted (suc n) fastest_only
positive n true = omega arith
positive n false = omega arith

-- SortStun lists at most as many answers as there are servers, and at most one where the fastest is
-- enough, whatever the socket answers; as long as it goes on it has fewer.
pub sort_stun-IsWithin :
    (opens fastest_only : Bool) (requests : List Request) (polls : List Poll)
    → IsWithin (wanted (length requests) fastest_only) (sort_stun opens fastest_only requests polls)
unfolding sort_stun
sort_stun-IsWithin opens fastest_only [] polls = omega arith
sort_stun-IsWithin opens fastest_only (r ∷ requests) polls =
    let start = positive (length requests) fastest_only in
    if-both (IsWithin (wanted (length (r ∷ requests)) fastest_only)) opens
      (collect-IsWithin (length (r ∷ requests)) fastest_only polls
        (send_requests (r ∷ requests) nothing_collected)
        (subst (λ (l : List (Bytes × ℕ)). length l < wanted (length (r ∷ requests)) fastest_only)
          (sym (send_requests-sorted (r ∷ requests) nothing_collected)) start))
      (less _ _ start)
