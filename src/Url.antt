-- ===== src/Url.antt =====
-- The addresses that the program takes apart: the host and port of a URL (Signal.cpp lines 41 to
-- 112, NodeSelector.cpp lines 41 to 75), and the scheme that a WebSocket is opened with
-- (WebSocket.cpp lines 35 to 45).
pub mod Shape
pub mod Host
pub mod Scheme
pub mod Sni
pub mod Token
use mathlib.Core.Option
use bff_rtc_base.Base.{
  ℕ, ◌+◌, ◌-◌, ◌%◌, ◌^◌, Bool, true, false, List, [], ◌∷◌, ◌++◌, Option, none, some, Bytes, codes,
  if◌then◌else◌, ltb, ◌==◌, ◌||◌, ◌&&◌, leb, drop, substr, replace, length, is_empty, is_digit,
  find_byte, find_byte_from, rfind_byte, find_text, starts_with, value, to_string, lookup, nat_eq,
  bytes_eq,
}

-- Behind `://`, if the text has one.
abbrev pub strip_scheme : Bytes → Bytes
strip_scheme s = elim (find_text (codes "://") s) [ none ↦ s | some i ↦ drop (i + 3) s ]

-- In front of the first `/`, if the text has one.
abbrev pub strip_path : Bytes → Bytes
strip_path s = elim (find_byte b'/' s) [ none ↦ s | some i ↦ substr s 0 i ]

-- `!s.empty() && s.front() == '['`
unfoldable pub is_bracketed : Bytes → Bool
is_bracketed [] = false
is_bracketed (c ∷ s) = c == b'['

abbrev pub bracketed_host : Bytes → Bytes
bracketed_host s = elim (find_byte b']' s) [ some rb ↦ substr s 1 (rb - 1) | none ↦ s ]

abbrev pub plain_host : Bytes → Bytes
plain_host s = elim (find_byte b':' s) [ some colon ↦ substr s 0 colon | none ↦ s ]

abbrev pub authority_host : Bytes → Bytes
authority_host s = if is_bracketed s then bracketed_host s else plain_host s

unfoldable pub host_from_url : Bytes → Bytes
host_from_url url = authority_host (strip_path (strip_scheme url))

-- NodeSelector's own copy of the same routine.
unfoldable pub host_from_addr : Bytes → Bytes
host_from_addr addr = authority_host (strip_path (strip_scheme addr))

-- `isspace`
is_space : ℕ → Bool
is_space c = c == b' ' || (leb 9 c && leb c 13)

skip_spaces : Bytes → Bytes
unfolding is_space
skip_spaces [] = []
skip_spaces (c ∷ s) = let rest = skip_spaces s in if is_space c then rest else c ∷ s

leading_digits : Bytes → Bytes
leading_digits [] = []
leading_digits (c ∷ s) = if is_digit c then c ∷ leading_digits s else []

-- A sign in front of the digits: whether it is a minus, and what stands behind it.
split_sign : Bytes → Bool × Bytes
split_sign [] = (false, [])
split_sign (c ∷ s) =
    if c == b'-' then (true, s) else if c == b'+' then (false, s) else (false, c ∷ s)

-- `std::stoul` where `unsigned long` has 64 bits. It throws, here `none`, where there is no digit
-- or the number does not fit; a minus wraps.
unfoldable pub stoul : Bytes → Option ℕ
unfolding skip_spaces leading_digits split_sign
stoul s =
    let (minus, unsigned) = split_sign (skip_spaces s) in
    let ds = leading_digits unsigned in
    let v = value 0 ds in
    if is_empty ds
    then none
    else if ltb v (2 ^ 64)
    then some (if minus then (2 ^ 64 - v) % 2 ^ 64 else v)
    else none

abbrev pub port_number : Bytes → Option ℕ
port_number s = Option.map (λ v. v % 2 ^ 32) (stoul s)

abbrev pub bracketed_port : Bytes → Option ℕ
bracketed_port s = elim (find_byte b']' s) [
  | none ↦ some 443
  | some rb ↦ elim (find_byte_from b':' s rb) [
    | none ↦ some 443
    | some colon ↦ port_number (drop (colon + 1) s)
  ]
]

abbrev pub plain_port : Bytes → Option ℕ
plain_port s = elim (rfind_byte b':' s) [
  | none ↦ some 443
  | some colon ↦ elim (find_byte b':' s) [
    | none ↦ some 443
    | some first ↦ if first == colon then port_number (drop (colon + 1) s) else some 443
  ]
]

abbrev pub authority_port : Bytes → Option ℕ
authority_port s = if is_bracketed s then bracketed_port s else plain_port s

-- `none` where the exception of `std::stoul` leaves the function.
unfoldable pub port_from_url : Bytes → Option ℕ
port_from_url url = authority_port (strip_path (strip_scheme url))

abbrev pub Hosts : Type 0
Hosts = List (Bytes × Bytes)

-- The name to present in TLS for an address; `sni` is `Config::Shared().sni`.
unfoldable pub sni_host_for_url : Bool → Bytes → Hosts → Option Bytes
sni_host_for_url sni url hosts =
    let host = host_from_url url in
    let by_port =
      Option.map (λ port. Option.get_or (lookup (host ++ (b':' ∷ to_string port)) hosts) [])
        (port_from_url url) in
    if sni
    then if is_empty host
      then some []
      else elim (lookup host hosts) [ some name ↦ some name | none ↦ by_port ]
    else some []

unfoldable pub replace_host : Bytes → Bytes → Bytes → Bytes
replace_host url old_host new_host =
    if is_empty old_host then url else elim (find_text old_host url) [
      | none ↦ url
      | some pos ↦ replace url pos (length old_host) new_host
    ]

-- Plain HTTP schemes become those of WebSocket, and then always with TLS.
abbrev pub http_to_ws : Bytes → Bytes
http_to_ws url =
    if starts_with (codes "https://") url
    then replace url 0 5 (codes "wss")
    else if starts_with (codes "http://") url
    then replace url 0 4 (codes "ws")
    else url

abbrev pub ws_to_wss : Bytes → Bytes
ws_to_wss url = if starts_with (codes "ws://") url then replace url 0 2 (codes "wss") else url

unfoldable pub normalize_ws_url : Bytes → Bytes
normalize_ws_url url = ws_to_wss (http_to_ws url)
