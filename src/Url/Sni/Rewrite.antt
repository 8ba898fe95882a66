-- ===== src/Url/Sni/Rewrite.antt =====
-- The rewritten address: its name is the TLS name, and the address that was named is pinned.
use mathlib.Core.Option
use bff_rtc_base.Base.{
  ℕ, ◌<◌, ◌^◌, Bool, true, false, ◌≡◌, ◌≢◌, refl, ◌∙◌, inl, inr, [], ◌∷◌, ◌++◌, append_assoc,
  Option, none, some, Bytes, codes, if◌then◌else◌, arith, ◌==◌, bytes_eq, bytes_beq_iff, is_empty,
  Lacks, beq_self, Bool-cases, to_string, to_string-ne-nil,
}
use bff_rtc_base.Url.{is_bracketed, host_from_url, port_from_url}
use bff_rtc_base.Url.Shape.{Address, IsAddress, render}
use bff_rtc_base.Url.Host.{host_from_url-render, port_from_url-render}
use bff_rtc_base.Url.Sni.{
  prepare_url_for_sni, rewrite_url, is_supported_scheme, is_numeric_host, default_port_for_scheme,
}
use bff_rtc_base.Url.Sni.Laws.{port_text, prepare-rewrite}

-- The port of the connection: the one that is named, or the scheme's.
abbrev pub sni_port : Address → ℕ
sni_port a = Option.get_or a.port (default_port_for_scheme a.scheme)

abbrev pub sni_address : Address → Bytes → Address
sni_address a sni = record {
  scheme = a.scheme;
  bracketed = false;
  host = sni;
  port = some (sni_port a);
  path = some (Option.get_or a.path []);
}

-- A name that stands in an address as it is.
pub record IsName (name : Bytes) : Type 0 where
  pub not_empty : name ≢ []
  pub no_slash : Lacks b'/' name
  pub no_colon : Lacks b':' name
  pub no_bracket : is_bracketed name ≡ false

pub sni_address-IsAddress :
    {a : Address} {sni : Bytes} → IsAddress a → IsName sni → IsAddress (sni_address a sni)
sni_address-IsAddress v n = record {
  scheme_colon = v.scheme_colon;
  host_slash = n.no_slash;
  host_colon = λ e. n.no_colon;
  host_open = λ e. n.no_bracket;
  host_close = λ e. absurd (cc);
}

is_empty-false : (s : Bytes) → s ≢ [] → is_empty s ≡ false
is_empty-false [] h = absurd (h refl)
is_empty-false (c ∷ s) h = refl

beq-false : (s t : Bytes) → s ≢ t → (s == t) ≡ false
beq-false s t h = elim (Bool-cases (s == t)) [
  | inl e ↦ absurd (h ((bytes_beq_iff s t).0 e))
  | inr e ↦ e
]

port_of-text :
    (p : Option ℕ) (d : ℕ)
    → (if is_empty (port_text p) then to_string d else port_text p) ≡ to_string (Option.get_or p d)
port_of-text none d = refl
port_of-text (some p) d = ground (arith, to_string-ne-nil p)

module _ (inet_pton4 inet_pton6 : Bytes → Bool) where
  abbrev pub pinned : Address → Bytes → Bytes
  pinned a sni =
      if is_numeric_host inet_pton4 inet_pton6 a.host
      then sni ++ (codes ":" ++ (to_string (sni_port a) ++ (codes ":" ++ a.host)))
      else []

  rewrite_url-other :
      (a : Address) (sni : Bytes)
      → a.host ≢ []
      → a.host ≢ sni
      → rewrite_url inet_pton4 inet_pton6
          (render a)
          sni
          a.scheme
          (b'/' ∷ Option.get_or a.path [])
          (a.host, port_text a.port)
        ≡ record { url = render (sni_address a sni); resolve = pinned a sni }
  unfolding rewrite_url
  rewrite_url-other a sni ne other =
      rw
        (
          is_empty-false a.host ne,
          beq-false a.host sni other,
          port_of-text a.port (default_port_for_scheme a.scheme),
          rewrite_url,
        )
        (rw (append_assoc sni (b':' ∷ to_string (sni_port a)) (b'/' ∷ Option.get_or a.path [])))

  -- For an address of a supported scheme whose host is not the TLS name, the result is the same
  -- address with the TLS name for its host and its port written out, and the pinned address is
  -- given exactly where the host is a number.
  pub prepare_url_for_sni-render :
      (a : Address) (sni : Bytes)
      → IsAddress a
      → sni ≢ []
      → is_supported_scheme a.scheme ≡ true
      → a.host ≢ []
      → a.host ≢ sni
      → prepare_url_for_sni inet_pton4 inet_pton6 (render a) sni
        ≡ record { url = render (sni_address a sni); resolve = pinned a sni }
  prepare_url_for_sni-render a sni v ne sup host other =
      prepare-rewrite inet_pton4 inet_pton6 a sni v ne sup ∙ rewrite_url-other a sni host other

  rewrite_url-same :
      (a : Address) (url sni path port : Bytes)
      → rewrite_url inet_pton4 inet_pton6 url sni a.scheme path (sni, port)
        ≡ record { url = url; resolve = [] }
  unfolding rewrite_url
  rewrite_url-same a url sni path port = rw (beq_self sni) (ground arith)

  -- An address whose host is the TLS name already is left as it is, with nothing pinned.
  prepare_url_for_sni-same :
      (a : Address)
      → IsAddress a
      → a.host ≢ []
      → is_supported_scheme a.scheme ≡ true
      → prepare_url_for_sni inet_pton4 inet_pton6 (render a) a.host
        ≡ record { url = render a; resolve = [] }
  prepare_url_for_sni-same a v ne sup =
      prepare-rewrite inet_pton4 inet_pton6 a a.host v ne sup ∙ rewrite_url-same a _ a.host _ _

  -- For an address of a supported scheme whose host is not the TLS name, which stands in an address
  -- as it is, preparing the prepared URL for the same name changes nothing and pins nothing.
  prepare_url_for_sni_idem :
      (a : Address) (sni : Bytes)
      → IsAddress a
      → IsName sni
      → is_supported_scheme a.scheme ≡ true
      → a.host ≢ []
      → a.host ≢ sni
      → let once = prepare_url_for_sni inet_pton4 inet_pton6 (render a) sni in
        prepare_url_for_sni inet_pton4 inet_pton6 once.url sni
        ≡ record { url = once.url; resolve = [] }
  prepare_url_for_sni_idem a sni v n sup host other =
      rw (prepare_url_for_sni-render a sni v n.not_empty sup host other)
        (prepare_url_for_sni-same (sni_address a sni) (sni_address-IsAddress v n) n.not_empty sup)

  -- For an address of a supported scheme whose host is not the TLS name, which stands in an address
  -- as it is, the prepared URL names the TLS host and the port of the connection, which fits in 32
  -- bits.
  pub host_from_url-prepare_url_for_sni :
      (a : Address) (sni : Bytes)
      → IsAddress a
      → IsName sni
      → is_supported_scheme a.scheme ≡ true
      → a.host ≢ []
      → a.host ≢ sni
      → sni_port a < 2 ^ 32
      → let out = prepare_url_for_sni inet_pton4 inet_pton6 (render a) sni in
        (host_from_url out.url ≡ sni) × (port_from_url out.url ≡ some (sni_port a))
  host_from_url-prepare_url_for_sni a sni v n sup host other fits =
      let w = sni_address-IsAddress v n in
      rw (prepare_url_for_sni-render a sni v n.not_empty sup host other) (
        (host_from_url-render (sni_address a sni) w).0,
        port_from_url-render (sni_address a sni) w fits,
      )
