-- ===== src/ConnManager/Discovery/Rounds.antt =====
-- What a round of the discovery does.
use mathlib.Core.List.{foldl}
use dbwrapper.Prelude.{
  ◌≡◌, refl, sym, ap, ◌∙◌, true, false, ◌||◌, List, [], ◌∷◌, some, arith, Bool-cases, inl, inr,
  remove_if, remove_if-eq, All, All-map,
}
use dbwrapper.Prelude.OrderedSet.{
  same, contains, insert, IsAscending, same-eq, same_refl, lt-same, contains-nil, contains-cons,
  contains-insert,
}
use dbwrapper.ConnManager.Info.{ConnInfo, less}
use dbwrapper.ConnManager.Info.Ordering.{less-IsOrder}
use dbwrapper.ConnManager.Discovery.{
  done, undefined, ServiceDiscovery, scan_reported, scan_known, get_conn_info,
}

known_already :
    (i j : ConnInfo) (known : List ConnInfo)
    → contains less j known ≡ true
    → same less i j ≡ true
    → contains less i known ≡ true
known_already i j known h e = rw (same-eq less less-IsOrder i j e) h

module _ {S : Type 0} (inc : ConnInfo → S → S) where
  scan-old :
      (i : ConnInfo) (reported known : List ConnInfo) (s : S)
      → contains less i known ≡ true
      → scan_reported inc (i ∷ reported) known s ≡ scan_reported inc reported known s
  unfolding scan_reported
  scan-old i reported known s old = ground arith

  scan-new :
      (i : ConnInfo) (reported known : List ConnInfo) (s : S)
      → contains less i known ≡ false
      → scan_reported inc (i ∷ reported) known s
        ≡ scan_reported inc reported (insert less i known) (inc i s)
  unfolding scan_reported
  scan-new i reported known s new = ground arith

  -- After the first loop the known ones are those that were known and those that are reported.
  scan_reported-contains :
      (reported known : List ConnInfo) (s : S) (i : ConnInfo)
      → contains less i (scan_reported inc reported known s).0
        ≡ (contains less i known || contains less i reported)
  unfolding scan_reported
  scan_reported-contains [] known s i = ground (arith, contains-nil less i)
  scan_reported-contains (j ∷ reported) known s i = elim (Bool-cases (contains less j known)) [
    | inl old ↦ rw (scan-old j reported known s old) (
        ground (
          arith,
          scan_reported-contains reported known s i,
          known_already i j known old,
          contains-cons less i j reported,
        ))
    | inr new ↦ rw (scan-new j reported known s new) (
        ground (
          arith,
          scan_reported-contains reported (insert less j known) (inc j s) i,
          contains-insert less less-IsOrder i j known,
          contains-cons less i j reported,
        ))
  ]

  -- The reported elements that are not known are handed over, each once, in order.
  scan_reported-calls :
      (reported known : List ConnInfo) (s : S)
      → IsAscending less reported
      → (scan_reported inc reported known s).1
        ≡ foldl (λ t i. inc i t) s (remove_if (λ i. contains less i known) reported)
  unfolding scan_reported
  scan_reported-calls [] known s h = refl
  scan_reported-calls (i ∷ reported) known s h = elim (Bool-cases (contains less i known)) [
    | inl old ↦ rw (scan-old i reported known s old, old) (scan_reported-calls reported known s h.1)
    | inr new ↦
        let same_tests : All (λ j. contains less j (insert less i known) ≡ contains less j known)
            reported =
          All-map
            (λ j lt.
              ground (arith, contains-insert less less-IsOrder j i known, lt-same less i j lt))
            reported h.0 in
        let later = remove_if-eq _ _ reported same_tests in
        rw (scan-new i reported known s new, new)
          (scan_reported-calls reported (insert less i known) (inc i s) h.1
            ∙ ap (foldl (λ t j. inc j t) (inc i s)) later)
  ]

module _ {S : Type 0} (dec : ConnInfo → S → S) (reported : List ConnInfo) where
  scan_known-done :
      (known : List ConnInfo) (s : S)
      → ((i : ConnInfo) → contains less i known ≡ true → contains less i reported ≡ true)
      → scan_known dec reported known s ≡ done s
  unfolding scan_known contains
  scan_known-done [] s h = refl
  scan_known-done (i ∷ known) s h = ground (
    arith,
    scan_known-done known s (λ j k. h j (ground arith)),
    h i (rw (same_refl less less-IsOrder i)),
  )

  scan_known-undefined :
      (known : List ConnInfo) (s : S) (i : ConnInfo)
      → contains less i known ≡ true
      → contains less i reported ≡ false
      → (j : ConnInfo) × (scan_known dec reported known s ≡ undefined (dec j s))
        × (contains less j known ≡ true)
        × (contains less j reported ≡ false)
  unfolding scan_known contains
  scan_known-undefined [] s i h k = cc
  scan_known-undefined (j ∷ known) s i h k = elim (Bool-cases (contains less j reported)) [
    | inl r ↦
        let (m, u, v, x) =
          scan_known-undefined known s i (ground (arith, known_already i j reported r)) k in
        (m, rw r u, ground arith, x)
    | inr r ↦ (j, rw r, rw (same_refl less less-IsOrder j), r)
  ]

module _ {S : Type 0} (d : ServiceDiscovery S) (s : S) (f : S → List ConnInfo)
    (set : d.get_conn_f ≡ some f) where
  round : List ConnInfo × S
  round = scan_reported d.cfg_inc (f s) d.conn_list s

  -- If the callback that reports is set, its set is in order, and everything that is known is still
  -- reported, the round ends: `onConnInfoInc` has run once for
  -- each reported description that was not known, in the order of the set, `onConnInfoDec` has not
  -- run, and the descriptions known afterwards are those that were reported.
  pub get_conn_info-done :
      IsAscending less (f s)
      → ((i : ConnInfo) → contains less i d.conn_list ≡ true → contains less i (f s) ≡ true)
      → (known : List ConnInfo) × (get_conn_info d s
          ≡ done (
            true,
            record d { conn_list = known },
            foldl (λ t i. d.cfg_inc i t) s (remove_if (λ i. contains less i d.conn_list) (f s)),
          ))
        × ((i : ConnInfo) → contains less i known ≡ contains less i (f s))
  unfolding get_conn_info round
  get_conn_info-done ascending all =
      let both = scan_reported-contains d.cfg_inc (f s) d.conn_list s in
      let known : (i : ConnInfo) → contains less i round.0 ≡ contains less i (f s) =
        λ i. ground (arith, both i, all i) in
      let quiet = scan_known-done d.cfg_dec (f s) round.0 round.1 (λ i k. sym (known i) ∙ k) in
      (
        round.0,
        ground (arith, quiet, scan_reported-calls d.cfg_inc (f s) d.conn_list s ascending),
        known,
      )

  -- If the callback that reports is set and a known description is no longer reported, the round does not end properly: after
  -- `onConnInfoDec` has run for one such description the behaviour is undefined.
  pub get_conn_info-undefined :
      (i : ConnInfo)
      → contains less i d.conn_list ≡ true
      → contains less i (f s) ≡ false
      → (j : ConnInfo) × (t : S) × (get_conn_info d s ≡ undefined (d.cfg_dec j t))
        × (contains less j d.conn_list ≡ true)
        × (contains less j (f s) ≡ false)
  unfolding get_conn_info round
  get_conn_info-undefined i known missing =
      let both = scan_reported-contains d.cfg_inc (f s) d.conn_list s in
      let (j, e, k, m) =
        scan_known-undefined d.cfg_dec (f s) round.0 round.1 i (ground (arith, both i)) missing in
      (j, round.1, rw (set, get_conn_info, e), ground (arith, both j), m)
