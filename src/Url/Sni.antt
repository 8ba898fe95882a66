-- ===== src/Url/Sni.antt =====
-- SniUrl.cpp: the URL and the pinned address with which libcurl presents a given TLS name. The
-- two tests of `inet_pton` are parameters.
pub mod Laws
pub mod Rewrite
use bff_rtc_base.Base.{
  ℕ, ◌+◌, ◌-◌, ◌<◌, Bool, true, false, ◌&&◌, ◌||◌, List, [], ◌∷◌, ◌++◌, Option, none, some, Bytes,
  codes, if◌then◌else◌, ltb, ◌==◌, nat_eq, bytes_eq, length, drop, substr, get_or, is_empty,
  find_byte, find_byte_from, rfind_byte, find_text, to_string,
}
use bff_rtc_base.Url.{is_bracketed}

pub record PreparedUrl : Type 0 where
  pub url : Bytes
  pub resolve : Bytes

unfoldable pub default_port_for_scheme : Bytes → ℕ
default_port_for_scheme scheme =
    if scheme == codes "https" || scheme == codes "wss"
    then 443
    else if scheme == codes "http" || scheme == codes "ws"
    then 80
    else 0

unfoldable pub is_supported_scheme : Bytes → Bool
is_supported_scheme scheme =
    scheme == codes "http"
    || scheme == codes "https"
    || scheme == codes "ws"
    || scheme == codes "wss"

-- The host to connect to and the port text; `none` for a bracket that is not closed.
bracketed_parts : Bytes → Option (Bytes × Bytes)
bracketed_parts s = elim (find_byte b']' s) [
  | none ↦ none
  | some e ↦ some (
    substr s 1 (e - 1),
    if ltb (e + 1) (length s) && get_or s (e + 1) 0 == b':' then drop (e + 2) s else [],
  )
]

plain_parts : Bytes → Bytes × Bytes
plain_parts s = elim (rfind_byte b':' s) [
  | none ↦ (s, [])
  | some colon ↦ elim (find_byte b':' s) [
    | none ↦ (s, [])
    | some first ↦ if first == colon then (substr s 0 colon, drop (colon + 1) s) else (s, [])
  ]
]

unfoldable pub authority_parts : Bytes → Option (Bytes × Bytes)
unfolding bracketed_parts plain_parts
authority_parts s = if is_bracketed s then bracketed_parts s else some (plain_parts s)

-- Behind the scheme: the authority, and the path with its slash, `/` where there is none.
unfoldable pub split_path : Bytes → ℕ → Bytes × Bytes
split_path url host_start = elim (find_byte_from b'/' url host_start) [
  | none ↦ (drop host_start url, codes "/")
  | some path_start ↦ (substr url host_start (path_start - host_start), drop path_start url)
]

module _ (inet_pton4 inet_pton6 : Bytes → Bool) where
  unfoldable pub is_numeric_host : Bytes → Bool
  unfolding is_bracketed
  is_numeric_host host =
      if is_empty host
      then false
      else if is_bracketed host
      then true
      else inet_pton4 host || inet_pton6 host

  -- The last steps, once the scheme and the parts are known.
  unfoldable pub rewrite_url : Bytes → Bytes → Bytes → Bytes → Bytes × Bytes → PreparedUrl
  unfolding is_numeric_host default_port_for_scheme
  rewrite_url url sni_host scheme path (connect_host, port_text) =
      let port =
        if is_empty port_text then to_string (default_port_for_scheme scheme) else port_text in
      if is_empty connect_host || connect_host == sni_host
      then record { url = url; resolve = [] }
      else record {
        url = scheme ++ (codes "://" ++ (sni_host ++ (codes ":" ++ (port ++ path))));
        resolve =
            if is_numeric_host connect_host
            then sni_host ++ (codes ":" ++ (port ++ (codes ":" ++ connect_host)))
            else [];
      }

  unfoldable pub prepare_url_for_sni : Bytes → Bytes → PreparedUrl
  unfolding rewrite_url authority_parts split_path is_supported_scheme
  prepare_url_for_sni url sni_host =
      let out : PreparedUrl = record { url = url; resolve = [] } in
      if is_empty sni_host then out else elim (find_text (codes "://") url) [
        | none ↦ out
        | some scheme_pos ↦
            let scheme = substr url 0 scheme_pos in
            let (authority, path) = split_path url (scheme_pos + 3) in
            if is_supported_scheme scheme
            then elim (authority_parts authority) [
              | none ↦ out
              | some parts ↦ rewrite_url url sni_host scheme path parts
            ]
            else out
      ]
