-- ===== src/Url/Host.antt =====
-- The host and the port that the program reads out of an address are those it was made of.
use bff_rtc_base.Base.{
  ℕ, suc, ◌+◌, ◌-◌, ◌^◌, ◌<◌, Bool, true, false, ◌≡◌, ◌≢◌, refl, ap, [], ◌∷◌, ◌++◌, append-nil,
  Option, none, some, Bytes, arith, length, Lacks, beq_self, nat_eq, Digits, value, Digits-Lacks,
  to_string, to_string-Digits, to_string-ne-nil, value-to_string, find_byte, find_byte-append,
  find_byte-Lacks, find_byte_from-append, find_byte_from-Lacks, rfind_byte-append, rfind_byte-Lacks,
  take-length_append, drop-length_append_add,
}
use bff_rtc_base.Url.{
  is_bracketed, authority_host, host_from_url, host_from_addr, port_from_url, port_number,
  authority_port, plain_host, bracketed_host, plain_port, bracketed_port, stoul, leading_digits,
}
use bff_rtc_base.Url.Shape.{
  Address, IsAddress, authority, render, render_host, render_port, strip_path-strip_scheme,
}

plain_host-render :
    (host : Bytes) (p : Option ℕ) → Lacks b':' host → plain_host (host ++ render_port p) ≡ host
plain_host-render host none h =
    rw (append-nil host, find_byte-Lacks b':' host h, plain_host) (append-nil host)
plain_host-render host (some p) h =
    rw (find_byte-append b':' host (to_string p) h, plain_host) (take-length_append host _)

pub find_close :
    (host rest : Bytes)
    → Lacks b']' host
    → find_byte b']' (b'[' ∷ (host ++ b']' ∷ rest)) ≡ some (suc (length host))
unfolding find_byte
find_close host rest h = ground (arith, find_byte-append b']' host rest h)

bracketed_host-render :
    (host rest : Bytes) → Lacks b']' host → bracketed_host (b'[' ∷ (host ++ b']' ∷ rest)) ≡ host
bracketed_host-render host rest h =
    let e : suc (length host) - 1 ≡ length host = omega arith in
    rw (find_close host rest h, bracketed_host, e) (take-length_append host (b']' ∷ rest))

pub is_bracketed-append :
    (host : Bytes) (p : Option ℕ)
    → is_bracketed host ≡ false
    → is_bracketed (host ++ render_port p) ≡ false
unfolding is_bracketed
is_bracketed-append [] none h = refl
is_bracketed-append [] (some p) h = ground arith
is_bracketed-append (c ∷ s) p h = h

authority_host-render_host :
    (b : Bool) (host : Bytes) (p : Option ℕ)
    → (b ≡ false → Lacks b':' host)
    → (b ≡ false → is_bracketed host ≡ false)
    → (b ≡ true → Lacks b']' host)
    → authority_host (render_host b host (render_port p)) ≡ host
authority_host-render_host true host p colon open_ close =
    unfold is_bracketed in (bracketed_host-render host (render_port p) (close refl))
authority_host-render_host false host p colon open_ close =
    rw (is_bracketed-append host p (open_ refl)) (plain_host-render host p (colon refl))

-- The host of an address in parts is read back from its text, with or without brackets, port
-- and path, by the routine of Signal.cpp and by that of NodeSelector.cpp.
pub host_from_url-render :
    (a : Address)
    → IsAddress a
    → (host_from_url (render a) ≡ a.host) × (host_from_addr (render a) ≡ a.host)
unfolding host_from_url host_from_addr
host_from_url-render a v =
    let e : authority_host (authority a) ≡ a.host =
      authority_host-render_host a.bracketed a.host a.port v.host_colon v.host_open v.host_close in
    (rw (strip_path-strip_scheme a v) e, rw (strip_path-strip_scheme a v) e)

-- The digits of a number, and nothing else, are read as that number.
leading_digits-Digits : (s : Bytes) → Digits s → leading_digits s ≡ s
unfolding leading_digits
leading_digits-Digits [] d = refl
leading_digits-Digits (c ∷ s) d = ground (arith, leading_digits-Digits s d.1)

stoul-Digits : (s : Bytes) → Digits s → s ≢ [] → value 0 s < 2 ^ 64 → stoul s ≡ some (value 0 s)
unfolding stoul
stoul-Digits [] d ne h = absurd (ne refl)
stoul-Digits (c ∷ s) d ne h = ground (arith, leading_digits-Digits (c ∷ s) d)

stoul-to_string : (n : ℕ) → n < 2 ^ 64 → stoul (to_string n) ≡ some n
stoul-to_string n h =
    ground (
      arith,
      stoul-Digits (to_string n) (to_string-Digits n) (to_string-ne-nil n),
      value-to_string n,
    )

port_number-to_string : (n : ℕ) → n < 2 ^ 32 → port_number (to_string n) ≡ some n
port_number-to_string n h =
    rw (stoul-to_string n (omega arith), port_number) (ap some (omega arith))

plain_port-render :
    (host : Bytes) (p : ℕ)
    → Lacks b':' host
    → p < 2 ^ 32
    → plain_port (host ++ b':' ∷ to_string p) ≡ some p
plain_port-render host p h lt =
    rw
      (
        rfind_byte-append b':' host (to_string p) (Digits-Lacks b':' _ refl (to_string-Digits p)),
        find_byte-append b':' host (to_string p) h,
        beq_self (length host),
        drop-length_append_add host (b':' ∷ to_string p) 1,
        plain_port,
      )
      (port_number-to_string p lt)

plain_port-absent : (host : Bytes) → Lacks b':' host → plain_port host ≡ some 443
plain_port-absent host h = rw (rfind_byte-Lacks b':' host h, plain_port)

bracketed_port-render :
    (host : Bytes) (p : ℕ)
    → Lacks b']' host
    → p < 2 ^ 32
    → bracketed_port (b'[' ∷ (host ++ b']' ∷ b':' ∷ to_string p)) ≡ some p
bracketed_port-render host p h lt =
    let e : 1 + suc (length host) + 1 ≡ suc (length host) + 2 = omega arith in
    rw
      (
        find_close host (b':' ∷ to_string p) h,
        find_byte_from-append b':' (b'[' ∷ host) (b']' ∷ []) (to_string p)
            ((λ e. ground arith), tt),
        e,
        drop-length_append_add (b'[' ∷ host) (b']' ∷ b':' ∷ to_string p) 2,
        bracketed_port,
      )
      (port_number-to_string p lt)

bracketed_port-absent :
    (host : Bytes) → Lacks b']' host → bracketed_port (b'[' ∷ (host ++ b']' ∷ [])) ≡ some 443
bracketed_port-absent host h = rw (
  find_close host [] h,
  find_byte_from-Lacks b':' (b'[' ∷ host) (b']' ∷ []) ((λ e. ground arith), tt),
  bracketed_port,
)

-- The port that an address stands for: 443 where it names none.
abbrev pub effective_port : Option ℕ → ℕ
effective_port none = 443
effective_port (some p) = p

authority_port-render_host :
    (b : Bool) (host : Bytes) (p : Option ℕ)
    → (b ≡ false → Lacks b':' host)
    → (b ≡ false → is_bracketed host ≡ false)
    → (b ≡ true → Lacks b']' host)
    → effective_port p < 2 ^ 32
    → authority_port (render_host b host (render_port p)) ≡ some (effective_port p)
authority_port-render_host true host none colon open_ close h =
    unfold is_bracketed in bracketed_port-absent host (close refl)
authority_port-render_host true host (some p) colon open_ close h =
    unfold is_bracketed in bracketed_port-render host p (close refl) h
authority_port-render_host false host none colon open_ close h =
    rw (is_bracketed-append host none (open_ refl), append-nil host)
      (plain_port-absent host (colon refl))
authority_port-render_host false host (some p) colon open_ close h =
    rw (is_bracketed-append host (some p) (open_ refl)) (plain_port-render host p (colon refl) h)

-- The port of an address in parts is read back from its text, and is 443 where the address names
-- none; the number fits in 32 bits.
pub port_from_url-render :
    (a : Address)
    → IsAddress a
    → effective_port a.port < 2 ^ 32
    → port_from_url (render a) ≡ some (effective_port a.port)
unfolding port_from_url
port_from_url-render a v h =
    rw (strip_path-strip_scheme a v)
      (authority_port-render_host a.bracketed a.host a.port v.host_colon v.host_open v.host_close h)
