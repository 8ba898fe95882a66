-- ===== src/Url/Scheme.antt =====
-- The scheme of a WebSocket address, and the host that is put in another's place.
use bff_rtc_base.Base.{
  true, false, ◌≡◌, ◌≢◌, refl, ap, ◌∙◌, inl, inr, [], ◌∷◌, ◌++◌, append_assoc, some, Bytes, codes,
  arith, length, drop, find_text, starts_with, starts_with-append, Bool-cases, take-length_append,
  drop-length_append, drop-length_append_add,
}
use bff_rtc_base.Url.{normalize_ws_url, replace_host}
use bff_rtc_base.Url.Shape.{Address, authority, render, render_path}

pub data WsScheme : Type 0 where
  https http ws wss : WsScheme

abbrev pub scheme_text : WsScheme → Bytes
scheme_text https = codes "https://"
scheme_text http = codes "http://"
scheme_text ws = codes "ws://"
scheme_text wss = codes "wss://"

-- Each of the four schemes becomes `wss`, and the rest of the URL is kept.
normalize_ws_url-scheme :
    (s : WsScheme) (rest : Bytes)
    → normalize_ws_url (scheme_text s ++ rest) ≡ codes "wss://" ++ rest
unfolding normalize_ws_url starts_with
normalize_ws_url-scheme https rest = refl
normalize_ws_url-scheme http rest = refl
normalize_ws_url-scheme ws rest = refl
normalize_ws_url-scheme wss rest = refl

-- A URL of any other scheme is kept.
normalize_ws_url-other :
    (url : Bytes)
    → starts_with (codes "https://") url ≡ false
    → starts_with (codes "http://") url ≡ false
    → starts_with (codes "ws://") url ≡ false
    → normalize_ws_url url ≡ url
unfolding normalize_ws_url
normalize_ws_url-other url h k w = rw (h, k, w, normalize_ws_url)

pub starts_with-split : (p s : Bytes) → starts_with p s ≡ true → s ≡ p ++ drop (length p) s
unfolding starts_with
starts_with-split [] s h = refl
starts_with-split (x ∷ p) [] h = cc
starts_with-split (x ∷ p) (y ∷ s) h = ground (arith, starts_with-split p s)

normalize_ws_url_idem-known :
    (s : WsScheme) (url : Bytes)
    → starts_with (scheme_text s) url ≡ true
    → normalize_ws_url (normalize_ws_url url) ≡ normalize_ws_url url
normalize_ws_url_idem-known s url h =
    let rest = drop (length (scheme_text s)) url in
    rw (starts_with-split (scheme_text s) url h, normalize_ws_url-scheme s rest)
      (normalize_ws_url-scheme wss rest)

-- Normalizing twice is normalizing once.
normalize_ws_url_idem :
    (url : Bytes) → normalize_ws_url (normalize_ws_url url) ≡ normalize_ws_url url
normalize_ws_url_idem url = elim (Bool-cases (starts_with (codes "https://") url)) [
  | inl h ↦ normalize_ws_url_idem-known https url h
  | inr h ↦ elim (Bool-cases (starts_with (codes "http://") url)) [
    | inl k ↦ normalize_ws_url_idem-known http url k
    | inr k ↦ elim (Bool-cases (starts_with (codes "ws://") url)) [
      | inl w ↦ normalize_ws_url_idem-known ws url w
      | inr w ↦ ap normalize_ws_url (normalize_ws_url-other url h k w)
    ]
  ]
]

-- Where the old host stands first at `pre`, exactly that occurrence is replaced.
replace_host-append :
    (pre old post new : Bytes)
    → old ≢ []
    → find_text old (pre ++ (old ++ post)) ≡ some (length pre)
    → replace_host (pre ++ (old ++ post)) old new ≡ pre ++ (new ++ post)
unfolding replace_host
replace_host-append pre [] post new ne h = absurd (ne refl)
replace_host-append pre (c ∷ old) post new ne h = rw (
  h,
  take-length_append pre (c ∷ (old ++ post)),
  drop-length_append_add pre (c ∷ (old ++ post)) (length (c ∷ old)),
  drop-length_append (c ∷ old) post,
  replace_host,
)

find_text_here : (old post : Bytes) → old ≢ [] → find_text old (old ++ post) ≡ some 0
unfolding find_text
find_text_here [] post ne = absurd (ne refl)
find_text_here (c ∷ old) post ne = rw (starts_with-append (c ∷ old) post)

-- The first occurrence counts, be it the host or not: where the text of the host begins the
-- scheme, the scheme is overwritten and the host stays.
pub replace_host_in_scheme :
    (a : Address) (more new : Bytes)
    → a.scheme ≡ a.host ++ more
    → a.host ≢ []
    → replace_host (render a) a.host new
      ≡ new ++ (more ++ b':' ∷ b'/' ∷ b'/' ∷ (authority a ++ render_path a.path))
replace_host_in_scheme a more new e ne =
    let behind = b':' ∷ b'/' ∷ b'/' ∷ (authority a ++ render_path a.path) in
    ap (λ s. replace_host (s ++ behind) a.host new) e
    ∙ ap (λ s. replace_host s a.host new) (append_assoc a.host more behind)
    ∙ replace_host-append [] a.host (more ++ behind) new ne
        (find_text_here a.host (more ++ behind) ne)
