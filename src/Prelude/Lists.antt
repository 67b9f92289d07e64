-- ===== src/Prelude/Lists.antt =====
-- Lists measured by native numbers, filtered by a Boolean test, and predicates over lists.
use Prim.Native.Nat.{ℕ, zero, suc, ◌+◌, ◌-◌}
use mathlib.Core.Path.{◌≡◌, refl, sym, ap, subst}
use mathlib.Core.Logic.{◌≢◌, ◌⊎◌, inl, inr}
use mathlib.Core.Bool.{Bool, false}
use mathlib.Core.List.{List, [], ◌∷◌, ◌++◌, map}
use native.Mathlib.Omega.{arith}
use dbwrapper.Prelude.Tests.{if◌then◌else◌, Bool-cases}

module _ {ℓ} {A : Type ℓ} where
  abbrev pub length : List A → ℕ
  length [] = 0
  length (x ∷ xs) = suc (length xs)

  abbrev pub take : ℕ → List A → List A
  take zero xs = []
  take (suc n) [] = []
  take (suc n) (x ∷ xs) = x ∷ take n xs

  abbrev pub drop : ℕ → List A → List A
  drop zero xs = xs
  drop (suc n) [] = []
  drop (suc n) (x ∷ xs) = drop n xs

  pub length-append : (xs ys : List A) → length (xs ++ ys) ≡ length xs + length ys
  length-append [] ys = omega arith
  length-append (x ∷ xs) ys = omega (arith, length-append xs ys)

  pub length-drop : (n : ℕ) (xs : List A) → length (drop n xs) ≡ length xs - n
  length-drop zero xs = omega arith
  length-drop (suc n) [] = omega arith
  length-drop (suc n) (x ∷ xs) = omega (arith, length-drop n xs)

  pub take-append : (xs ys : List A) → take (length xs) (xs ++ ys) ≡ xs
  take-append [] ys = refl
  take-append (x ∷ xs) ys = ap (◌∷◌ x) (take-append xs ys)

  pub drop-append : (xs ys : List A) → drop (length xs) (xs ++ ys) ≡ ys
  drop-append [] ys = refl
  drop-append (x ∷ xs) ys = drop-append xs ys

  -- `std::list::remove_if`: the elements at which the test fails, in their order.
  abbrev pub remove_if : (A → Bool) → List A → List A
  remove_if p [] = []
  remove_if p (x ∷ xs) = if p x then remove_if p xs else x ∷ remove_if p xs

  -- Those at which it holds.
  abbrev pub keep_if : (A → Bool) → List A → List A
  keep_if p [] = []
  keep_if p (x ∷ xs) = if p x then x ∷ keep_if p xs else keep_if p xs

  -- A predicate on every element, by recursion.
  abbrev pub All {κ} : (A → Type κ) → List A → Type κ
  All P [] = Unit
  All P (x ∷ xs) = P x × All P xs

  pub All-append {κ} : (P : A → Type κ) (xs ys : List A) → All P xs → All P ys → All P (xs ++ ys)
  All-append P [] ys hx hy = hy
  All-append P (x ∷ xs) ys hx hy = (hx.0, All-append P xs ys hx.1 hy)

  pub All-map {κ μ} :
      {P : A → Type κ} {Q : A → Type μ}
      → ((x : A) → P x → Q x)
      → (xs : List A) → All P xs
      → All Q xs
  All-map f [] h = tt
  All-map f (x ∷ xs) h = (f x h.0, All-map f xs h.1)

  pub All-always {κ} : {P : A → Type κ} → ((x : A) → P x) → (xs : List A) → All P xs
  All-always f [] = tt
  All-always f (x ∷ xs) = (f x, All-always f xs)

  pub All-map₂ {κ μ ν} :
      {P : A → Type κ} {Q : A → Type μ} {R : A → Type ν}
      → ((x : A) → P x → Q x → R x)
      → (xs : List A) → All P xs
      → All Q xs
      → All R xs
  All-map₂ f [] h k = tt
  All-map₂ f (x ∷ xs) h k = (f x h.0 k.0, All-map₂ f xs h.1 k.1)

  pub All-left {κ} : (P : A → Type κ) (xs ys : List A) → All P (xs ++ ys) → All P xs
  All-left P [] ys h = tt
  All-left P (x ∷ xs) ys h = (h.0, All-left P xs ys h.1)

  pub All-right {κ} : (P : A → Type κ) (xs ys : List A) → All P (xs ++ ys) → All P ys
  All-right P [] ys h = h
  All-right P (x ∷ xs) ys h = All-right P xs ys h.1

  -- What a list keeps after `remove_if` still satisfies what all its elements did.
  pub All-remove_if {κ} :
      (P : A → Type κ) (p : A → Bool) (xs : List A) → All P xs → All P (remove_if p xs)
  All-remove_if P p [] h = tt
  All-remove_if P p (x ∷ xs) h = ground (arith, All-remove_if P p xs h.1)

  -- ... and fails the test.
  pub remove_if-All : (p : A → Bool) (xs : List A) → All (λ x. p x ≡ false) (remove_if p xs)
  remove_if-All p [] = tt
  remove_if-All p (x ∷ xs) = ground (arith, remove_if-All p xs)

  pub remove_if-eq_self :
      (p : A → Bool) (xs : List A) → All (λ x. p x ≡ false) xs → remove_if p xs ≡ xs
  remove_if-eq_self p [] h = refl
  remove_if-eq_self p (x ∷ xs) h = ground (arith, remove_if-eq_self p xs h.1)

  pub remove_if-eq :
      (p q : A → Bool) (xs : List A) → All (λ x. p x ≡ q x) xs → remove_if p xs ≡ remove_if q xs
  remove_if-eq p q [] h = refl
  remove_if-eq p q (x ∷ xs) h = ground (arith, remove_if-eq p q xs h.1)

  -- A predicate on some element.
  abbrev pub Any : (A → Type 0) → List A → Type 0
  Any P [] = ⊥
  Any P (x ∷ xs) = P x ⊎ Any P xs

  pub Any-append_left : (P : A → Type 0) (xs ys : List A) → Any P xs → Any P (xs ++ ys)
  Any-append_left P [] ys h = elim h [ ]
  Any-append_left P (x ∷ xs) ys (inl h) = inl h
  Any-append_left P (x ∷ xs) ys (inr h) = inr (Any-append_left P xs ys h)

  pub Any-append_right : (P : A → Type 0) (xs ys : List A) → Any P ys → Any P (xs ++ ys)
  Any-append_right P [] ys h = h
  Any-append_right P (x ∷ xs) ys h = inr (Any-append_right P xs ys h)

  -- No two elements have one key.
  abbrev pub Distinct : (A → ℕ) → List A → Type 0
  Distinct key [] = Unit
  Distinct key (x ∷ xs) = All (λ y. key y ≢ key x) xs × Distinct key xs

  pub Distinct-remove_if :
      (key : A → ℕ) (p : A → Bool) (xs : List A) → Distinct key xs → Distinct key (remove_if p xs)
  Distinct-remove_if key p [] d = tt
  Distinct-remove_if key p (x ∷ xs) d =
      ground (arith, All-remove_if (λ y. key y ≢ key x) p xs d.0, Distinct-remove_if key p xs d.1)

  pub Distinct-snoc :
      (key : A → ℕ) (xs : List A) (x : A)
      → Distinct key xs
      → All (λ y. key y ≢ key x) xs
      → Distinct key (xs ++ x ∷ [])
  Distinct-snoc key [] x d h = (tt, tt)
  Distinct-snoc key (y ∷ ys) x d h =
      (All-append _ ys (x ∷ []) d.0 ((λ e. h.0 (sym e)), tt), Distinct-snoc key ys x d.1 h.1)

  pub All-keep_if {κ} :
      (P : A → Type κ) (p : A → Bool) (xs : List A) → All P xs → All P (keep_if p xs)
  All-keep_if P p [] h = tt
  All-keep_if P p (x ∷ xs) h = ground (arith, All-keep_if P p xs h.1)

  -- With distinct keys, what is removed and what is left have no key in common.
  pub Distinct-split :
      (key : A → ℕ) (p : A → Bool) (xs : List A)
      → Distinct key xs
      → All (λ y. All (λ r. key y ≢ key r) (keep_if p xs)) (remove_if p xs)
  Distinct-split key p [] d = tt
  Distinct-split key p (x ∷ xs) d = elim (Bool-cases (p x)) [
    | inl e ↦ rw e (
        All-map₂ (λ y ne rest. (ne, rest)) (remove_if p xs) (All-remove_if _ p xs d.0)
          (Distinct-split key p xs d.1))
    | inr e ↦ rw e (
      All-map (λ y ne same. ne (sym same)) _ (All-keep_if _ p xs d.0),
      Distinct-split key p xs d.1,
    )
  ]

  pub Any-remove_if :
      (P : A → Type 0) (p : A → Bool) (xs : List A)
      → Any P xs
      → All (λ r. ¬ P r) (keep_if p xs)
      → Any P (remove_if p xs)
  Any-remove_if P p [] h k = elim h [ ]
  Any-remove_if P p (x ∷ xs) h k = elim (Bool-cases (p x)) [
    | inl e ↦
        let k' = subst (λ b. All (λ r. ¬ P r) (if b then x ∷ keep_if p xs else keep_if p xs)) e k in
        rw e
          (elim h [ inl here ↦ absurd (k'.0 here) | inr later ↦ Any-remove_if P p xs later k'.1 ])
    | inr e ↦
        let k' = subst (λ b. All (λ r. ¬ P r) (if b then x ∷ keep_if p xs else keep_if p xs)) e k in
        rw e (elim h [ inl here ↦ inl here | inr later ↦ inr (Any-remove_if P p xs later k') ])
  ]

-- Predicates and maps.
module _ {ℓ κ} {A : Type ℓ} {B : Type κ} (f : A → B) where
  pub All-of_map {μ} : (P : B → Type μ) (xs : List A) → All P (map f xs) → All (λ x. P (f x)) xs
  All-of_map P [] h = tt
  All-of_map P (x ∷ xs) h = (h.0, All-of_map P xs h.1)

  pub All-to_map {μ} : (P : B → Type μ) (xs : List A) → All (λ x. P (f x)) xs → All P (map f xs)
  All-to_map P [] h = tt
  All-to_map P (x ∷ xs) h = (h.0, All-to_map P xs h.1)

  pub Any-of_map : (P : B → Type 0) (xs : List A) → Any P (map f xs) → Any (λ x. P (f x)) xs
  Any-of_map P [] h = elim h [ ]
  Any-of_map P (x ∷ xs) (inl h) = inl h
  Any-of_map P (x ∷ xs) (inr h) = inr (Any-of_map P xs h)

  pub Any-to_map : (P : B → Type 0) (xs : List A) → Any (λ x. P (f x)) xs → Any P (map f xs)
  Any-to_map P [] h = elim h [ ]
  Any-to_map P (x ∷ xs) (inl h) = inl h
  Any-to_map P (x ∷ xs) (inr h) = inr (Any-to_map P xs h)

  pub Distinct-of_map :
      (key : B → ℕ) (xs : List A) → Distinct key (map f xs) → Distinct (λ x. key (f x)) xs
  Distinct-of_map key [] d = tt
  Distinct-of_map key (x ∷ xs) d = (All-of_map _ xs d.0, Distinct-of_map key xs d.1)

  pub Distinct-to_map :
      (key : B → ℕ) (xs : List A) → Distinct (λ x. key (f x)) xs → Distinct key (map f xs)
  Distinct-to_map key [] d = tt
  Distinct-to_map key (x ∷ xs) d = (All-to_map _ xs d.0, Distinct-to_map key xs d.1)
