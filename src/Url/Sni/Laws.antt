-- ===== src/Url/Sni/Laws.antt =====
-- What `prepare_url_for_sni` makes of an address that is given in its parts.
use mathlib.Core.Option
use bff_rtc_base.Base.{
  ℕ, suc, ◌+◌, ◌-◌, Bool, true, false, ◌≡◌, ◌≢◌, refl, ap, [], ◌∷◌, ◌++◌, append-nil, append_assoc,
  Option, none, some, Bytes, codes, arith, nat_eq, bytes_eq, length, take, add_comm,
  find_byte_from-append, find_byte_from-Lacks, get_or-append, Lacks, beq_self, Digits-Lacks,
  to_string, to_string-Digits, find_byte-append, rfind_byte-append, rfind_byte-Lacks, find_text,
  find_text-append, starts_with, length-append, take-length_append, drop-length_append,
  drop-length_append_add,
}
use bff_rtc_base.Url.{is_bracketed}
use bff_rtc_base.Url.Shape.{
  Address, IsAddress, authority, authority-Lacks, render, render_host, render_port, render_path,
}
use bff_rtc_base.Url.Host.{find_close, is_bracketed-append}
use bff_rtc_base.Url.Sni.{
  prepare_url_for_sni, bracketed_parts, plain_parts, authority_parts, split_path, rewrite_url,
  is_supported_scheme,
}

abbrev pub port_text : Option ℕ → Bytes
port_text none = []
port_text (some p) = to_string p

plain_parts-render :
    (host : Bytes) (p : Option ℕ)
    → Lacks b':' host
    → plain_parts (host ++ render_port p) ≡ (host, port_text p)
unfolding plain_parts
plain_parts-render host none h =
    rw (append-nil host) (rw (rfind_byte-Lacks b':' host h, plain_parts))
plain_parts-render host (some p) h = rw (
  rfind_byte-append b':' host (to_string p) (Digits-Lacks b':' _ refl (to_string-Digits p)),
  find_byte-append b':' host (to_string p) h,
  beq_self (length host),
  drop-length_append_add host (b':' ∷ to_string p) 1,
  take-length_append host (b':' ∷ to_string p),
  plain_parts,
)

-- Cutting the brackets off: `suc n - 1` is what the code computes.
take-inside : (host rest : Bytes) → take (suc (length host) - 1) (host ++ rest) ≡ host
take-inside host rest =
    let e : suc (length host) - 1 ≡ length host = omega arith in rw e (take-length_append host rest)

bracketed_parts-render :
    (host : Bytes) (p : Option ℕ)
    → Lacks b']' host
    → bracketed_parts (b'[' ∷ (host ++ b']' ∷ render_port p)) ≡ some (host, port_text p)
unfolding bracketed_parts
bracketed_parts-render host none h =
    rw (find_close host [] h, bracketed_parts)
      (ground (arith, take-inside host (b']' ∷ []), length-append host (b']' ∷ [])))
bracketed_parts-render host (some p) h =
    let rest = b']' ∷ b':' ∷ to_string p in
    rw (find_close host (b':' ∷ to_string p) h, bracketed_parts)
      (ground (
        arith,
        take-inside host rest,
        length-append host rest,
        get_or-append (b'[' ∷ host) rest 1 0,
        drop-length_append_add (b'[' ∷ host) rest 2,
      ))

authority_parts-render :
    (b : Bool) (host : Bytes) (p : Option ℕ)
    → (b ≡ false → Lacks b':' host)
    → (b ≡ false → is_bracketed host ≡ false)
    → (b ≡ true → Lacks b']' host)
    → authority_parts (render_host b host (render_port p)) ≡ some (host, port_text p)
authority_parts-render true host p colon open_ close =
    unfold authority_parts is_bracketed in bracketed_parts-render host p (close refl)
authority_parts-render false host p colon open_ close =
    unfold authority_parts in
    rw (is_bracketed-append host p (open_ refl)) (ap some (plain_parts-render host p (colon refl)))

split_path-absent :
    (pre s : Bytes) → Lacks b'/' s → split_path (pre ++ s) (length pre) ≡ (s, codes "/")
unfolding split_path
split_path-absent pre s h =
    rw (find_byte_from-Lacks b'/' pre s h, drop-length_append pre s, split_path)

split_path-present :
    (pre s p : Bytes)
    → Lacks b'/' s
    → split_path (pre ++ (s ++ b'/' ∷ p)) (length pre) ≡ (s, b'/' ∷ p)
unfolding split_path
split_path-present pre s p h =
    let e : length s + length pre - length pre ≡ length s = omega arith in
    rw (
      find_byte_from-append b'/' pre s p h,
      e,
      add_comm (length s) (length pre),
      drop-length_append_add pre (s ++ b'/' ∷ p) (length s),
      drop-length_append pre (s ++ b'/' ∷ p),
      drop-length_append s (b'/' ∷ p),
      take-length_append s (b'/' ∷ p),
      split_path,
    )

split_path-render :
    (pre s : Bytes) (p : Option Bytes)
    → Lacks b'/' s
    → split_path (pre ++ (s ++ render_path p)) (length pre) ≡ (s, b'/' ∷ Option.get_or p [])
split_path-render pre s none h = rw (append-nil s) (split_path-absent pre s h)
split_path-render pre s (some p) h = split_path-present pre s p h

-- The same behind a scheme and `://`.
split_path-scheme :
    (a : Address)
    → IsAddress a
    → split_path (render a) (length a.scheme + 3) ≡ (authority a, b'/' ∷ Option.get_or a.path [])
split_path-scheme a v =
    let pre = a.scheme ++ codes "://" in
    let e : length a.scheme + 3 ≡ length pre =
      omega (arith, length-append a.scheme (codes "://")) in
    rw (e, ← append_assoc a.scheme (codes "://") (authority a ++ render_path a.path))
      (split_path-render pre (authority a) a.path (authority-Lacks a v))

find_scheme :
    (a : Address) → IsAddress a → find_text (codes "://") (render a) ≡ some (length a.scheme)
find_scheme a v =
    find_text-append b':' (codes "//") a.scheme (b'/' ∷ b'/' ∷ (authority a ++ render_path a.path))
      v.scheme_colon (unfold starts_with in refl)

module _ (inet_pton4 inet_pton6 : Bytes → Bool) where
  -- On an address of a supported scheme, all comes down to the last steps on its parts.
  pub prepare-rewrite :
      (a : Address) (sni : Bytes)
      → IsAddress a
      → sni ≢ []
      → is_supported_scheme a.scheme ≡ true
      → prepare_url_for_sni inet_pton4 inet_pton6 (render a) sni
        ≡ rewrite_url inet_pton4 inet_pton6
            (render a)
            sni
            a.scheme
            (b'/' ∷ Option.get_or a.path [])
            (a.host, port_text a.port)
  unfolding prepare_url_for_sni
  prepare-rewrite a [] v ne sup = absurd (ne refl)
  prepare-rewrite a (c ∷ sni) v ne sup =
      rw
        (
          find_scheme a v,
          split_path-scheme a v,
          take-length_append a.scheme (b':' ∷ b'/' ∷ b'/' ∷ (authority a ++ render_path a.path)),
          sup,
          authority_parts-render a.bracketed a.host a.port v.host_colon v.host_open v.host_close,
          prepare_url_for_sni,
        )
        (rw (
          split_path-scheme a v,
          take-length_append a.scheme (b':' ∷ b'/' ∷ b'/' ∷ (authority a ++ render_path a.path)),
        ))
