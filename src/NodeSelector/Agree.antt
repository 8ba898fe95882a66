-- ===== src/NodeSelector/Agree.antt =====
-- The node that two peers negotiate (NodeSelector.cpp, lines 97 to 117).
use bff_rtc_base.Base.{
  ◌≡◌, ◌≢◌, refl, sym, ap, ◌∙◌, Bool, true, false, not, ◌||◌, List, [], ◌∷◌, Option, none, some,
  Bytes, is_empty, ℤ, if-true, if-false, arith,
}
use bff_rtc_base.Signal.Config.{Config}
use bff_rtc_base.Stun.Nodes.{Rtts, find_best_node}
use bff_rtc_base.Stun.Nodes.Loop.{rtt_of, IsDistinct}
use bff_rtc_base.Stun.Nodes.Least.{IsSmall, Both}
use bff_rtc_base.Stun.Nodes.Agree.{NoTie, find_best_node_comm}
use bff_rtc_base.NodeSelector.{Selector, prefer, store_rtts, negotiate, apply_node_rtts}

-- Measurements that come in, with whether they are the own ones.
unfoldable pub apply_all : Config → List (Rtts × Bool) → Selector → Selector
unfolding apply_node_rtts
apply_all config [] s = s
apply_all config ((rtts, is_self) ∷ more) s =
    apply_all config more (apply_node_rtts config rtts is_self s)

-- Nothing is measured or chosen.
pub record IsNew (s : Selector) : Type 0 where
  pub own : s.node_rtts_self ≡ []
  pub other : s.node_rtts ≡ []
  pub chosen : s.best_node_negotiated ≡ []

some_bytes : (x : Bytes) → x ≢ [] → is_empty x ≡ false
some_bytes [] ne = absurd (ne refl)
some_bytes (c ∷ x) ne = refl

store_rtts-best :
    (rtts : Rtts) (is_self : Bool) (s : Selector)
    → (store_rtts rtts is_self s).best_node_negotiated ≡ s.best_node_negotiated
store_rtts-best rtts true s = refl
store_rtts-best rtts false s = refl

prefer-none : (server : Option Bytes) (s : Selector) → server ≡ none → prefer server s ≡ s
prefer-none server s h = ap (λ o. prefer o s) h

module _ (config : Config) (free : config.server ≡ none) where
  -- A choice stays.
  apply_node_rtts-chosen :
      (rtts : Rtts) (is_self : Bool) (s : Selector) (node : Bytes)
      → node ≢ []
      → s.best_node_negotiated ≡ node
      → (apply_node_rtts config rtts is_self s).best_node_negotiated ≡ node
  unfolding apply_node_rtts negotiate
  apply_node_rtts-chosen rtts is_self s node ne chosen =
      let stored = store_rtts rtts is_self s in
      let kept : stored.best_node_negotiated ≡ node = store_rtts-best rtts is_self s ∙ chosen in
      let is_chosen : is_empty stored.best_node_negotiated ≡ false =
        ap (λ (x : Bytes). is_empty x) kept ∙ some_bytes node ne in
      ap (λ (e : Selector). (negotiate e).best_node_negotiated)
        (prefer-none config.server stored free)
      ∙ ap (λ (e : Selector). e.best_node_negotiated)
          (if-true
            {b = not (is_empty stored.best_node_negotiated)
              || is_empty stored.node_rtts_self
              || is_empty stored.node_rtts}
            stored _ (ground arith))
      ∙ kept

  apply_all-chosen :
      (more : List (Rtts × Bool)) (s : Selector) (node : Bytes)
      → node ≢ []
      → s.best_node_negotiated ≡ node
      → (apply_all config more s).best_node_negotiated ≡ node
  unfolding apply_all
  apply_all-chosen [] s node ne chosen = chosen
  apply_all-chosen ((rtts, is_self) ∷ more) s node ne chosen =
      apply_all-chosen more (apply_node_rtts config rtts is_self s) node ne
        (apply_node_rtts-chosen rtts is_self s node ne chosen)

  -- The first two measurements, in one order or the other.
  abbrev pub both : Bool → (own other : Rtts) → Selector → Selector
  both true own other s = apply_node_rtts config other false (apply_node_rtts config own true s)
  both false own other s = apply_node_rtts config own true (apply_node_rtts config other false s)

  apply_node_rtts-stored :
      (rtts : Rtts) (is_self : Bool) (s : Selector)
      → apply_node_rtts config rtts is_self s ≡ negotiate (store_rtts rtts is_self s)
  unfolding apply_node_rtts
  apply_node_rtts-stored rtts is_self s =
      ap negotiate (prefer-none config.server (store_rtts rtts is_self s) free)

  negotiate-waits :
      (s : Selector) → (is_empty s.node_rtts_self || is_empty s.node_rtts) ≡ true → negotiate s ≡ s
  unfolding negotiate
  negotiate-waits s h =
      if-true
        {b = not (is_empty s.best_node_negotiated)
          || is_empty s.node_rtts_self
          || is_empty s.node_rtts}
        s _ (ground arith)

  negotiate-chooses :
      (s : Selector)
      → s.best_node_negotiated ≡ []
      → is_empty s.node_rtts_self ≡ false
      → is_empty s.node_rtts ≡ false
      → (negotiate s).best_node_negotiated ≡ find_best_node s.node_rtts_self s.node_rtts
  unfolding negotiate
  negotiate-chooses s chosen own other =
      let is_new : is_empty s.best_node_negotiated ≡ true = ap (λ (x : Bytes). is_empty x) chosen in
      ap (λ (e : Selector). e.best_node_negotiated)
        (if-false
          {b = not (is_empty s.best_node_negotiated)
            || is_empty s.node_rtts_self
            || is_empty s.node_rtts}
          s _ (ground arith))

  both-chooses :
      (own_first : Bool) (own other : Rtts) (s : Selector)
      → IsNew s
      → is_empty own ≡ false
      → is_empty other ≡ false
      → (both own_first own other s).best_node_negotiated ≡ find_best_node own other
  both-chooses true own other s new some_own some_other =
      let stored = store_rtts own true s in
      let first : apply_node_rtts config own true s ≡ stored =
        apply_node_rtts-stored own true s ∙ negotiate-waits stored (ground (arith, new.other)) in
      ap (λ (e : Selector). (apply_node_rtts config other false e).best_node_negotiated) first
      ∙ ap (λ (e : Selector). e.best_node_negotiated) (apply_node_rtts-stored other false stored)
      ∙ negotiate-chooses (store_rtts other false stored) new.chosen some_own some_other
  both-chooses false own other s new some_own some_other =
      let stored = store_rtts other false s in
      let first : apply_node_rtts config other false s ≡ stored =
        apply_node_rtts-stored other false s ∙ negotiate-waits stored (ground (arith, new.own)) in
      ap (λ (e : Selector). (apply_node_rtts config own true e).best_node_negotiated) first
      ∙ ap (λ (e : Selector). e.best_node_negotiated) (apply_node_rtts-stored own true stored)
      ∙ negotiate-chooses (store_rtts own true stored) new.chosen some_own some_other

measured-some : (n : Bytes) (rtts : Rtts) (a : ℤ) → rtt_of n rtts ≡ some a → is_empty rtts ≡ false
unfolding rtt_of
measured-some n [] a h = cc
measured-some n (r ∷ rtts) a h = refl

-- Two peers that get each other's measurements, each in its own order, choose the same node and keep
-- it whatever measurements come in later, unless a server is configured: there has to be a node
-- that both have measured, no two nodes with the same sum of squares, no node listed twice, no
-- time more than 32767 away from zero, and the choice must not be the empty name.
pub negotiated_agree :
    (config1 config2 : Config) (mine theirs : Rtts) (own_first1 own_first2 : Bool)
    (more1 more2 : List (Rtts × Bool)) (s1 s2 : Selector) (n : Bytes) (a b : ℤ)
    → (free1 : config1.server ≡ none) → (free2 : config2.server ≡ none) → IsNew s1
    → IsNew s2
    → IsDistinct mine
    → IsDistinct theirs
    → IsSmall mine
    → IsSmall theirs
    → NoTie mine theirs
    → Both mine theirs n a b
    → find_best_node mine theirs ≢ []
    → (apply_all config1 more1 (both config1 free1 own_first1 mine theirs s1)).best_node_negotiated
      ≡ (apply_all config2 more2
          (both config2 free2 own_first2 theirs mine s2)).best_node_negotiated
negotiated_agree config1 config2 mine theirs own_first1 own_first2 more1 more2 s1 s2 n a b free1
      free2 new1 new2 d1 d2 small1 small2 tie m ne =
    let node = find_best_node mine theirs in
    let same = find_best_node_comm mine theirs n a b d1 d2 small1 small2 tie m in
    let some_mine = measured-some n mine a m.own in
    let some_theirs = measured-some n theirs b m.other in
    let x = both-chooses config1 free1 own_first1 mine theirs s1 new1 some_mine some_theirs in
    let y = both-chooses config2 free2 own_first2 theirs mine s2 new2 some_theirs some_mine in
    apply_all-chosen config1 free1 more1 (both config1 free1 own_first1 mine theirs s1) node ne x
    ∙ sym (
        apply_all-chosen config2 free2 more2 (both config2 free2 own_first2 theirs mine s2) node ne
          (y ∙ sym same))
