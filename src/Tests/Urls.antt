-- ===== src/Tests/Urls.antt =====
-- Addresses: the routines of Url.antt and its children on concrete texts.
use bff_rtc_base.Base.{
  ℕ, Bool, true, false, ◌≡◌, refl, ◌⊎◌, ◌++◌, ◌∷◌, none, some, Bytes, codes, arith, lacks,
  lacks-Lacks, ◌==◌, nat_eq, bytes_eq, bytes_beq, starts_with, find_byte_from, find_byte,
}
use bff_rtc_base.Url.{host_from_url, host_from_addr, port_from_url, is_bracketed, replace_host}
use bff_rtc_base.Url.Shape.{Address, IsAddress, authority, render, render_path}
use bff_rtc_base.Url.Host.{host_from_url-render, port_from_url-render}
use bff_rtc_base.Url.Scheme.{replace_host_in_scheme}
use bff_rtc_base.Url.Sni.{is_supported_scheme, prepare_url_for_sni}
use bff_rtc_base.Url.Sni.Rewrite.{
  IsName, sni_address, pinned, prepare_url_for_sni-render, host_from_url-prepare_url_for_sni,
}
use bff_rtc_base.Url.Token.{replace_token_query}
use bff_rtc_base.Url.Token.Laws.{
  HasNoToken, IsFirst, is_separator, with_value, from_amp, replace_token_query_frame,
}

-- `wss://10.0.0.1:8443/rtc`
abbrev node : Address
node = record {
  scheme = codes "wss";
  bracketed = false;
  host = codes "10.0.0.1";
  port = some 8443;
  path = some (codes "rtc");
}

node-IsAddress : IsAddress node
unfolding lacks is_bracketed
node-IsAddress = record {
  scheme_colon = lacks-Lacks b':' node.scheme refl;
  host_slash = lacks-Lacks b'/' node.host refl;
  host_colon = λ e. lacks-Lacks b':' node.host refl;
  host_open = λ e. refl;
  host_close = λ e. cc;
}

-- `w://[fe::1]`
abbrev bare_node : Address
bare_node = record {
  scheme = codes "w";
  bracketed = true;
  host = codes "fe::1";
  port = none;
  path = none;
}

bare_node-IsAddress : IsAddress bare_node
unfolding lacks
bare_node-IsAddress = record {
  scheme_colon = lacks-Lacks b':' bare_node.scheme refl;
  host_slash = lacks-Lacks b'/' bare_node.host refl;
  host_colon = λ e. cc;
  host_open = λ e. cc;
  host_close = λ e. lacks-Lacks b']' bare_node.host refl;
}

host_from_url-render_example :
    (host_from_url (render node) ≡ codes "10.0.0.1")
    × (host_from_addr (render node) ≡ codes "10.0.0.1")
host_from_url-render_example = host_from_url-render node node-IsAddress

port_from_url-render_example : port_from_url (render bare_node) ≡ some 443
port_from_url-render_example = port_from_url-render bare_node bare_node-IsAddress (omega arith)

-- The host `w` of `wss://w:8443/rtc` is replaced in the scheme.
replace_host_in_scheme_example :
    replace_host (render (record node { host = codes "w" })) (codes "w") (codes "d")
    ≡ codes "d"
      ++ (codes "ss"
          ++ b':'
            ∷ b'/'
            ∷ b'/'
            ∷ (authority (record node { host = codes "w" }) ++ render_path (some (codes "rtc"))))
replace_host_in_scheme_example =
    replace_host_in_scheme (record node { host = codes "w" }) (codes "ss") (codes "d") refl
      (λ e. ground arith)

-- `inet_pton`, for one number.
abbrev is_ipv4 : Bytes → Bool
is_ipv4 s = s == codes "10.0.0.1"

abbrev is_ipv6 : Bytes → Bool
is_ipv6 s = false

rtc_com-IsName : IsName (codes "rtc.com")
unfolding lacks is_bracketed
rtc_com-IsName = record {
  not_empty = λ e. ground arith;
  no_slash = lacks-Lacks b'/' (codes "rtc.com") refl;
  no_colon = lacks-Lacks b':' (codes "rtc.com") refl;
  no_bracket = refl;
}

prepare_url_for_sni-render_example :
    prepare_url_for_sni is_ipv4 is_ipv6 (render node) (codes "rtc.com") ≡ record {
      url = render (sni_address node (codes "rtc.com"));
      resolve = pinned is_ipv4 is_ipv6 node (codes "rtc.com");
    }
unfolding is_supported_scheme bytes_beq
prepare_url_for_sni-render_example =
    prepare_url_for_sni-render is_ipv4 is_ipv6 node (codes "rtc.com") node-IsAddress
      (λ e. ground arith) refl (λ e. ground arith) (λ e. ground arith)

host_from_url-prepare_url_for_sni_example :
    let out = prepare_url_for_sni is_ipv4 is_ipv6 (render node) (codes "rtc.com") in
    (host_from_url out.url ≡ codes "rtc.com") × (port_from_url out.url ≡ some 8443)
unfolding is_supported_scheme bytes_beq
host_from_url-prepare_url_for_sni_example =
    host_from_url-prepare_url_for_sni is_ipv4 is_ipv6 node (codes "rtc.com") node-IsAddress
      rtc_com-IsName refl (λ e. ground arith) (λ e. ground arith) (omega arith)

replace_token_query_frame_example :
    (HasNoToken (codes "a?token=1&b")
      × (replace_token_query (codes "a?token=1&b") (codes "2") ≡ codes "a?token=1&b"))
    ⊎ ((before : Bytes) × (separator : ℕ) × (tail : Bytes) × (codes "a?token=1&b"
          ≡ with_value before separator tail)
        × (is_separator separator ≡ true)
        × IsFirst (codes "a?token=1&b") before
        × (replace_token_query (codes "a?token=1&b") (codes "2")
            ≡ with_value before separator (codes "2" ++ from_amp tail)))
replace_token_query_frame_example =
    replace_token_query_frame (codes "a?token=1&b") (codes "2") (λ e. ground arith)

-- Runs.
sets_token : replace_token_query (codes "a?x&token=1&b") (codes "22") ≡ codes "a?x&token=22&b"
unfolding replace_token_query find_byte_from find_byte starts_with
sets_token = refl
