-- ===== src/Prelude/OrderedSet.antt =====
-- `std::set` with a comparison: the list of its elements in ascending order.
use mathlib.Core.Path.{◌≡◌, refl}
use mathlib.Core.Bool.{Bool, true, false, not, ◌&&◌, ◌||◌}
use mathlib.Core.Logic.{inl, inr}
use mathlib.Core.List.{List, [], ◌∷◌}
use native.Mathlib.Omega.{arith}
use dbwrapper.Prelude.Tests.{if◌then◌else◌, Bool-cases}
use dbwrapper.Prelude.Lists.{All, All-map}
use dbwrapper.Prelude.Order.{IsOrder}

module _ {ℓ} {A : Type ℓ} (lt : A → A → Bool) where
  -- Neither is smaller.
  unfoldable pub same : A → A → Bool
  same a b = not (lt a b) && not (lt b a)

  -- `find(a) != end()`
  unfoldable pub contains : A → List A → Bool
  unfolding same
  contains a [] = false
  contains a (b ∷ bs) = same a b || contains a bs

  pub contains-nil : (a : A) → contains a [] ≡ false
  unfolding contains
  contains-nil a = refl

  pub contains-cons : (a b : A) (bs : List A) → contains a (b ∷ bs) ≡ (same a b || contains a bs)
  unfolding contains
  contains-cons a b bs = refl

  unfoldable pub insert : A → List A → List A
  insert a [] = a ∷ []
  insert a (b ∷ bs) = if lt a b then a ∷ b ∷ bs else if lt b a then b ∷ insert a bs else b ∷ bs

  -- Each element stands before those that are greater.
  abbrev pub IsAscending : List A → Type 0
  IsAscending [] = Unit
  IsAscending (a ∷ as') = All (λ b. lt a b ≡ true) as' × IsAscending as'

  pub lt-same : (a b : A) → lt a b ≡ true → same b a ≡ false
  unfolding same
  lt-same a b h = ground arith

  module _ (o : IsOrder lt) where
    pub same_refl : (a : A) → same a a ≡ true
    unfolding same
    same_refl a = ground (arith, o.irrefl a)

    pub same-eq : (a b : A) → same a b ≡ true → a ≡ b
    unfolding same
    same-eq a b h = ground (arith, o.connex a b)

    pub contains-insert :
        (a b : A) (s : List A) → contains a (insert b s) ≡ (same a b || contains a s)
    unfolding contains insert
    contains-insert a b [] = refl
    contains-insert a b (c ∷ s) = ground (arith, contains-insert a b s, o.connex b c)

    insert-All {κ} : (P : A → Type κ) (b : A) (s : List A) → P b → All P s → All P (insert b s)
    unfolding insert
    insert-All P b [] h k = (h, tt)
    insert-All P b (c ∷ s) h k = ground (arith, insert-All P b s h k.1)

    pub insert-IsAscending : (b : A) (s : List A) → IsAscending s → IsAscending (insert b s)
    unfolding insert
    insert-IsAscending b [] h = (tt, tt)
    insert-IsAscending b (c ∷ s) h = elim (Bool-cases (lt b c)) [
      | inl e ↦ rw e ((e, All-map (λ d cd. o.trans b c d e cd) s h.0), h)
      | inr e ↦ elim (Bool-cases (lt c b)) [
        | inl g ↦ rw (e, g) (insert-All (λ d. lt c d ≡ true) b s g h.0, insert-IsAscending b s h.1)
        | inr g ↦ rw (e, g) h
      ]
    ]
