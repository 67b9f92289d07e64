-- ===== src/Prelude/Order.antt =====
-- Strict total orders given by a Boolean test: the integers, byte strings (`std::string::compare`)
-- and pairs (`std::tie(…) < std::tie(…)`).
use Prim.Native.Nat.{ℕ, compare, Ordering}
use mathlib.Core.Path.{◌≡◌, refl}
use mathlib.Core.Bool.{Bool, true, false, not, ◌&&◌, ◌||◌}
use mathlib.Core.List.{List, [], ◌∷◌}
use native.Mathlib.Omega.{arith}
use dbwrapper.Prelude.Tests.{ℤ, pos, negsuc, int_ltb, int_eqb}

pub record IsOrder {ℓ} {A : Type ℓ} (lt : A → A → Bool) : Type ℓ where
  pub irrefl : (a : A) → lt a a ≡ false
  pub trans : (a b c : A) → lt a b ≡ true → lt b c ≡ true → lt a c ≡ true
  pub connex : (a b : A) → lt a b ≡ false → lt b a ≡ false → a ≡ b

-- `std::tuple`'s `<`: the first components decide unless neither is smaller.
abbrev pub lex {ℓ κ} :
    {A : Type ℓ} {B : Type κ} → (A → A → Bool) → (B → B → Bool) → A × B → A × B → Bool
lex f g (a, b) (c, d) = f a c || (not (f c a) && g b d)

pub lex-IsOrder {ℓ κ} :
    {A : Type ℓ} {B : Type κ} {f : A → A → Bool} {g : B → B → Bool}
    → IsOrder f
    → IsOrder g
    → IsOrder (lex f g)
lex-IsOrder {f} {g} p q = record {
  irrefl = λ (a, b). ground (arith, p.irrefl a, q.irrefl b);
  trans = λ (a, b) (c, d) (e, h) u v.
      ground (arith, p.trans a c e, p.connex a c, p.connex c e, p.irrefl a, q.trans b d h);
  connex = λ (a, b) (c, d) u v. ground (arith, p.connex a c, q.connex b d);
}

int_ltb_irrefl : (a : ℤ) → int_ltb a a ≡ false
int_ltb_irrefl (pos a) = ground arith
int_ltb_irrefl (negsuc a) = ground arith

int_ltb_trans : (a b c : ℤ) → int_ltb a b ≡ true → int_ltb b c ≡ true → int_ltb a c ≡ true
int_ltb_trans a b c u v = ground arith

int_ltb-connex : (a b : ℤ) → int_ltb a b ≡ false → int_ltb b a ≡ false → a ≡ b
int_ltb-connex a b u v = ground arith

pub int_ltb-IsOrder : IsOrder int_ltb
int_ltb-IsOrder = record { irrefl = int_ltb_irrefl; trans = int_ltb_trans; connex = int_ltb-connex }

pub int_eqb-eq : (a b : ℤ) → int_eqb a b ≡ true → a ≡ b
int_eqb-eq a b h = ground arith

pub int_eqb_refl : (a : ℤ) → int_eqb a a ≡ true
int_eqb_refl (pos a) = ground arith
int_eqb_refl (negsuc a) = ground arith

-- `std::string::compare`, by the bytes and then the length.
unfoldable pub compare_bytes : List ℕ → List ℕ → Ordering
compare_bytes [] [] = Ordering.eq
compare_bytes [] (y ∷ ys) = Ordering.lt
compare_bytes (x ∷ xs) [] = Ordering.gt
compare_bytes (x ∷ xs) (y ∷ ys) = elim (compare x y) [ Ordering.eq ↦ compare_bytes xs ys | o ↦ o ]

-- `operator<` and `operator==` of strings.
unfoldable pub string_ltb : List ℕ → List ℕ → Bool
unfolding compare_bytes
string_ltb a b = elim (compare_bytes a b) [ Ordering.lt ↦ true | _ ↦ false ]

unfoldable pub string_eqb : List ℕ → List ℕ → Bool
unfolding compare_bytes
string_eqb a b = elim (compare_bytes a b) [ Ordering.eq ↦ true | _ ↦ false ]

compare_bytes_refl : (a : List ℕ) → compare_bytes a a ≡ Ordering.eq
unfolding compare_bytes
compare_bytes_refl [] = refl
compare_bytes_refl (x ∷ xs) = ground (arith, compare_bytes_refl xs)

compare_bytes-eq : (a b : List ℕ) → compare_bytes a b ≡ Ordering.eq → a ≡ b
unfolding compare_bytes
compare_bytes-eq [] [] h = refl
compare_bytes-eq [] (y ∷ ys) h = cc
compare_bytes-eq (x ∷ xs) [] h = cc
compare_bytes-eq (x ∷ xs) (y ∷ ys) h = ground (arith, compare_bytes-eq xs ys)

compare_bytes_flip :
    (a b : List ℕ) → compare_bytes a b ≡ Ordering.gt → compare_bytes b a ≡ Ordering.lt
unfolding compare_bytes
compare_bytes_flip [] [] h = cc
compare_bytes_flip [] (y ∷ ys) h = cc
compare_bytes_flip (x ∷ xs) [] h = refl
compare_bytes_flip (x ∷ xs) (y ∷ ys) h = ground (arith, compare_bytes_flip xs ys)

compare_bytes_trans :
    (a b c : List ℕ)
    → compare_bytes a b ≡ Ordering.lt
    → compare_bytes b c ≡ Ordering.lt
    → compare_bytes a c ≡ Ordering.lt
unfolding compare_bytes
compare_bytes_trans [] [] c u v = cc
compare_bytes_trans [] (y ∷ ys) [] u v = cc
compare_bytes_trans [] (y ∷ ys) (z ∷ zs) u v = refl
compare_bytes_trans (x ∷ xs) [] c u v = cc
compare_bytes_trans (x ∷ xs) (y ∷ ys) [] u v = cc
compare_bytes_trans (x ∷ xs) (y ∷ ys) (z ∷ zs) u v = ground (arith, compare_bytes_trans xs ys zs)

pub string_eqb-eq : (a b : List ℕ) → string_eqb a b ≡ true → a ≡ b
unfolding string_eqb
string_eqb-eq a b h = ground (arith, compare_bytes-eq a b)

pub string_eqb_refl : (a : List ℕ) → string_eqb a a ≡ true
unfolding string_eqb
string_eqb_refl a = ground (arith, compare_bytes_refl a)

string_ltb_irrefl : (a : List ℕ) → string_ltb a a ≡ false
unfolding string_ltb
string_ltb_irrefl a = ground (arith, compare_bytes_refl a)

string_ltb_trans :
    (a b c : List ℕ) → string_ltb a b ≡ true → string_ltb b c ≡ true → string_ltb a c ≡ true
unfolding string_ltb
string_ltb_trans a b c u v = ground (arith, compare_bytes_trans a b c)

string_ltb-connex : (a b : List ℕ) → string_ltb a b ≡ false → string_ltb b a ≡ false → a ≡ b
unfolding string_ltb
string_ltb-connex a b u v = ground (arith, compare_bytes-eq a b, compare_bytes_flip a b)

pub string_ltb-IsOrder : IsOrder string_ltb
string_ltb-IsOrder = record {
  irrefl = string_ltb_irrefl;
  trans = string_ltb_trans;
  connex = string_ltb-connex;
}
