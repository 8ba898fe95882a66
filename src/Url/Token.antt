-- ===== src/Url/Token.antt =====
-- HttpClient.cpp lines 71 to 95 and 109 to 116: the `token` parameter of a URL's query.
pub mod Laws
use mathlib.Core.Option
use bff_rtc_base.Base.{
  ℕ, suc, ◌+◌, ◌&&◌, ◌||◌, [], ◌∷◌, ◌++◌, Option, none, some, Bytes, codes, if◌then◌else◌, ◌==◌,
  nat_eq, length, drop, take, is_empty, find_byte_from, starts_with,
}

-- The position behind the first `?` or `&` that `token=` follows.
unfoldable pub find_token : Bytes → Option ℕ
find_token [] = none
find_token (c ∷ s) =
    if (c == b'?' || c == b'&') && starts_with (codes "token=") s
    then some 1
    else Option.map suc (find_token s)

-- Also `urlWithAuthToken`, with the stored token as the second argument.
unfoldable pub replace_token_query : Bytes → Bytes → Bytes
unfolding find_token
replace_token_query url token = if is_empty token then url else elim (find_token url) [
  | none ↦ url
  | some pos ↦
      let value_start = pos + 6 in
      let value_end = Option.get_or (find_byte_from b'&' url value_start) (length url) in
      take value_start url ++ (token ++ drop value_end url)
]
