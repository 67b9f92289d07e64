-- ===== src/Prelude/OrderedMap.antt =====
-- `std::map` with strings as keys: the list of its elements, in the order of the keys.
use mathlib.Core.Path.{◌≡◌, refl, sym, subst}
use mathlib.Core.Logic.{inl, inr}
use mathlib.Core.Bool.{true, false}
use mathlib.Core.Option.{Option, none, some}
use mathlib.Core.List.{List, [], ◌∷◌, map}
use Prim.Native.Nat.{ℕ}
use native.Mathlib.Omega.{arith}
use dbwrapper.Prelude.Tests.{if◌then◌else◌, Bool-cases}
use dbwrapper.Prelude.Lists.{remove_if, All, All-map}
use dbwrapper.Prelude.Order.{
  string_eqb, string_ltb, string_eqb-eq, string_eqb_refl, string_ltb-IsOrder,
}

above : (k j : List ℕ) → string_eqb k j ≡ false → string_ltb k j ≡ false → string_ltb j k ≡ true
above k j n u = elim (Bool-cases (string_ltb j k)) [
  | inl e ↦ e
  | inr e ↦ ground (arith, string_ltb-IsOrder.connex k j u e, string_eqb_refl k)
]

apart : (k j : List ℕ) → string_ltb k j ≡ true → string_eqb j k ≡ false
apart k j u = elim (Bool-cases (string_eqb j k)) [
  | inl e ↦ ground (arith, string_eqb-eq j k e, string_ltb-IsOrder.irrefl k)
  | inr e ↦ e
]

module _ {ℓ} {V : Type ℓ} where
  -- `find`
  unfoldable pub find : List ℕ → List (List ℕ × V) → Option V
  find k [] = none
  find k (e ∷ m) = if string_eqb k e.0 then some e.1 else find k m

  -- `m[k] = v`
  unfoldable pub assign : List ℕ → V → List (List ℕ × V) → List (List ℕ × V)
  assign k v [] = (k, v) ∷ []
  assign k v (e ∷ m) =
      if string_eqb k e.0
      then (k, v) ∷ m
      else if string_ltb k e.0
      then (k, v) ∷ e ∷ m
      else e ∷ assign k v m

  -- `erase`
  unfoldable pub erase : List ℕ → List (List ℕ × V) → List (List ℕ × V)
  erase k m = remove_if (λ e. string_eqb k e.0) m

  -- The element of a key is changed in place.
  unfoldable pub adjust : List ℕ → (V → V) → List (List ℕ × V) → List (List ℕ × V)
  adjust k f [] = []
  adjust k f (e ∷ m) = if string_eqb k e.0 then (e.0, f e.1) ∷ m else e ∷ adjust k f m

  pub find-assign :
      (k j : List ℕ) (v : V) (m : List (List ℕ × V))
      → find j (assign k v m) ≡ (if string_eqb j k then some v else find j m)
  unfolding find assign
  find-assign k j v [] = refl
  find-assign k j v (e ∷ m) = ground (
    arith,
    find-assign k j v m,
    string_eqb-eq k e.0,
    string_eqb-eq j e.0,
    string_eqb-eq j k,
    string_eqb_refl j,
  )

  pub find-erase :
      (k j : List ℕ) (m : List (List ℕ × V))
      → find j (erase k m) ≡ (if string_eqb j k then none else find j m)
  unfolding find erase
  find-erase k j [] = ground arith
  find-erase k j (e ∷ m) = ground (
    arith,
    find-erase k j m,
    string_eqb-eq k e.0,
    string_eqb-eq j e.0,
    string_eqb-eq j k,
    string_eqb_refl j,
  )

  pub find-adjust :
      (k j : List ℕ) (f : V → V) (m : List (List ℕ × V))
      → find j (adjust k f m)
        ≡ (elim (find j m) [ none ↦ none | some v ↦ if string_eqb j k then some (f v) else some v ])
  unfolding find adjust
  find-adjust k j f [] = refl
  find-adjust k j f (e ∷ m) = ground (
    arith,
    find-adjust k j f m,
    string_eqb-eq k e.0,
    string_eqb-eq j e.0,
    string_eqb-eq j k,
    string_eqb_refl j,
  )

  -- A change in place keeps the keys.
  pub adjust-keys :
      (k : List ℕ) (f : V → V) (m : List (List ℕ × V))
      → map (λ e. e.0) (adjust k f m) ≡ map (λ e. e.0) m
  unfolding adjust
  adjust-keys k f [] = refl
  adjust-keys k f (e ∷ m) = ground (arith, adjust-keys k f m)

  pub adjust-missing :
      (k : List ℕ) (f : V → V) (m : List (List ℕ × V)) → find k m ≡ none → adjust k f m ≡ m
  unfolding find adjust
  adjust-missing k f [] e = refl
  adjust-missing k f (e' ∷ m) e = ground (arith, adjust-missing k f m)

  -- The keys ascend.
  abbrev pub IsAbove : List ℕ → List (List ℕ × V) → Type 0
  IsAbove k m = All (λ e. string_ltb k e.0 ≡ true) m

  abbrev pub IsOrdered : List (List ℕ × V) → Type 0
  IsOrdered [] = Unit
  IsOrdered (e ∷ m) = IsAbove e.0 m × IsOrdered m

  find-IsAbove : (k : List ℕ) (m : List (List ℕ × V)) → IsAbove k m → find k m ≡ none
  unfolding find
  find-IsAbove k [] h = refl
  find-IsAbove k (e ∷ m) (h, hs) =
      ground (arith, find-IsAbove k m hs, string_eqb-eq k e.0, string_ltb-IsOrder.irrefl k)

  assign-IsAbove :
      (j k : List ℕ) (v : V) (m : List (List ℕ × V))
      → string_ltb j k ≡ true
      → IsAbove j m
      → IsAbove j (assign k v m)
  unfolding assign
  assign-IsAbove j k v [] p h = (p, tt)
  assign-IsAbove j k v (e ∷ m) p (h, hs) = elim (Bool-cases (string_eqb k e.0)) [
    | inl l ↦ rw l (p, hs)
    | inr l ↦ elim (Bool-cases (string_ltb k e.0)) [
      | inl u ↦ rw (l, u) (p, (h, hs))
      | inr u ↦ rw (l, u) (h, assign-IsAbove j k v m p hs)
    ]
  ]

  pub assign-IsOrdered :
      (k : List ℕ) (v : V) (m : List (List ℕ × V)) → IsOrdered m → IsOrdered (assign k v m)
  unfolding assign
  assign-IsOrdered k v [] o = (tt, tt)
  assign-IsOrdered k v (e ∷ m) (h, o) = elim (Bool-cases (string_eqb k e.0)) [
    | inl l ↦ rw l (subst (λ j. IsAbove j m) (sym (string_eqb-eq k e.0 l)) h, o)
    | inr l ↦ elim (Bool-cases (string_ltb k e.0)) [
      | inl u ↦ rw (l, u) ((u, All-map (λ e'. string_ltb-IsOrder.trans k e.0 e'.0 u) m h), (h, o))
      | inr u ↦ rw (l, u) (assign-IsAbove e.0 k v m (above k e.0 l u) h, assign-IsOrdered k v m o)
    ]
  ]

  find-above :
      (e : List ℕ × V) (m l : List (List ℕ × V))
      → IsAbove e.0 l
      → All (λ e'. find e'.0 m ≡ some e'.1) l
      → All (λ e'. find e'.0 (e ∷ m) ≡ some e'.1) l
  unfolding find
  find-above e m [] h f = tt
  find-above e m (e' ∷ l) (h, hs) (f, fs) = (rw (apart e.0 e'.0 h) f, find-above e m l hs fs)

  -- Each element of an ordered map is found.
  pub find-each : (m : List (List ℕ × V)) → IsOrdered m → All (λ e. find e.0 m ≡ some e.1) m
  unfolding find
  find-each [] o = tt
  find-each (e ∷ m) (h, o) = (rw (string_eqb_refl e.0) refl, find-above e m m h (find-each m o))
