-- ===== src/Url/Shape.antt =====
-- Addresses in their parts, and the text that stands for one: what a caller of the routines in
-- Url.antt passes.
use bff_rtc_base.Base.{
  ℕ, Bool, true, false, ◌≡◌, refl, [], ◌∷◌, ◌++◌, append-nil, Option, none, some, Bytes, codes,
  arith, All-append, Lacks, Digits-Lacks, to_string, to_string-Digits, find_byte-append,
  find_byte-Lacks, find_text-append, starts_with, take-length_append, drop-length_append_add,
}
use bff_rtc_base.Url.{strip_scheme, strip_path, is_bracketed}

pub record Address : Type 0 where
  pub scheme : Bytes
  pub bracketed : Bool
  pub host : Bytes
  pub port : Option ℕ
  pub path : Option Bytes

abbrev pub render_port : Option ℕ → Bytes
render_port none = []
render_port (some p) = b':' ∷ to_string p

abbrev pub render_path : Option Bytes → Bytes
render_path none = []
render_path (some p) = b'/' ∷ p

-- The host, in brackets or plain, with what stands behind it.
abbrev pub render_host : Bool → Bytes → Bytes → Bytes
render_host true host rest = b'[' ∷ (host ++ b']' ∷ rest)
render_host false host rest = host ++ rest

abbrev pub authority : Address → Bytes
authority a = render_host a.bracketed a.host (render_port a.port)

-- `scheme://host:port/path`, with an IPv6 host in brackets.
abbrev pub render : Address → Bytes
render a = a.scheme ++ b':' ∷ b'/' ∷ b'/' ∷ (authority a ++ render_path a.path)

-- The parts hold none of the bytes that end them.
pub record IsAddress (a : Address) : Type 0 where
  pub scheme_colon : Lacks b':' a.scheme
  pub host_slash : Lacks b'/' a.host
  pub host_colon : a.bracketed ≡ false → Lacks b':' a.host
  pub host_open : a.bracketed ≡ false → is_bracketed a.host ≡ false
  pub host_close : a.bracketed ≡ true → Lacks b']' a.host

pub render_port-Lacks : (p : Option ℕ) → Lacks b'/' (render_port p)
render_port-Lacks none = tt
render_port-Lacks (some p) = (λ e. ground arith, Digits-Lacks b'/' _ refl (to_string-Digits p))

pub render_host-Lacks :
    (b : Bool) (host rest : Bytes)
    → Lacks b'/' host
    → Lacks b'/' rest
    → Lacks b'/' (render_host b host rest)
render_host-Lacks true host rest h k =
    (λ e. ground arith, All-append _ host (b']' ∷ rest) h ((λ e. ground arith), k))
render_host-Lacks false host rest h k = All-append _ host rest h k

pub authority-Lacks : (a : Address) → IsAddress a → Lacks b'/' (authority a)
authority-Lacks a v = render_host-Lacks a.bracketed a.host _ v.host_slash (render_port-Lacks a.port)

strip_path-render :
    (s : Bytes) (p : Option Bytes) → Lacks b'/' s → strip_path (s ++ render_path p) ≡ s
strip_path-render s none h = rw (append-nil s, find_byte-Lacks b'/' s h, strip_path) (append-nil s)
strip_path-render s (some p) h =
    rw (find_byte-append b'/' s p h, strip_path) (take-length_append s (b'/' ∷ p))

strip_scheme-render : (s t : Bytes) → Lacks b':' s → strip_scheme (s ++ b':' ∷ b'/' ∷ b'/' ∷ t) ≡ t
strip_scheme-render s t h =
    rw
      (
        find_text-append b':' (codes "//") s (b'/' ∷ b'/' ∷ t) h (unfold starts_with in refl),
        strip_scheme,
      )
      (drop-length_append_add s (b':' ∷ b'/' ∷ b'/' ∷ t) 3)

-- Cutting off the scheme and the path leaves the authority.
pub strip_path-strip_scheme :
    (a : Address) → IsAddress a → strip_path (strip_scheme (render a)) ≡ authority a
strip_path-strip_scheme a v =
    rw (strip_scheme-render a.scheme (authority a ++ render_path a.path) v.scheme_colon)
      (strip_path-render (authority a) a.path (authority-Lacks a v))
