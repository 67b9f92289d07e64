-- ===== src/Prelude/Decimal.antt =====
-- Decimal numbers, as the streams of C++ write them and as its conversions read them.
use Prim.Native.Nat.{ℕ, zero, suc, ◌+◌, ◌-◌, ◌*◌, ◌/◌, ◌%◌, ◌<◌}
use mathlib.Core.Path.{◌≡◌, subst}
use mathlib.Core.Logic.{inl, inr}
use mathlib.Core.Bool.{Bool, true, false, ◌&&◌}
use mathlib.Core.List.{List, [], ◌∷◌, ◌++◌, append_assoc, append-nil}
use native.Mathlib.Omega.{arith}
use dbwrapper.Prelude.Tests.{ltb, leb, if◌then◌else◌, Bool-cases}

-- What `<<` writes for a number.
unfoldable pub digits : ℕ → ℕ → List ℕ
digits zero n = []
digits (suc fuel) n =
    let rest = digits fuel (n / 10) in
    if ltb n 10 then (48 + n) ∷ [] else rest ++ (48 + n % 10) ∷ []

-- A number of its size suffices.
unfoldable pub print_nat : ℕ → List ℕ
unfolding digits
print_nat n = digits (suc n) n

-- Decimal digits, read as far as they go.
abbrev pub read_digits : ℕ → List ℕ → ℕ × List ℕ
read_digits acc [] = (acc, [])
read_digits acc (c ∷ cs) =
    let rest = read_digits (acc * 10 + (c - 48)) cs in
    if leb 48 c && ltb c 58 then rest else (acc, c ∷ cs)

shorter : (n fuel : ℕ) → ltb n 10 ≡ false → n < suc fuel → n / 10 < fuel
shorter n fuel l p = ground arith

number : (n : ℕ) → n / 10 * 10 + (48 + n % 10 - 48) ≡ n
number n = omega arith

pub read_digits-digits :
    (fuel n : ℕ) (cs : List ℕ) → n < fuel → read_digits 0 (digits fuel n ++ cs) ≡ read_digits n cs
unfolding digits
read_digits-digits zero n cs p = ground arith
read_digits-digits (suc fuel) n cs p = elim (Bool-cases (ltb n 10)) [
  | inl l ↦ rw l (ground arith)
  | inr l ↦
      let rest : read_digits 0 (digits fuel (n / 10) ++ (48 + n % 10) ∷ cs)
          ≡ read_digits (n / 10) ((48 + n % 10) ∷ cs) =
        read_digits-digits fuel (n / 10) ((48 + n % 10) ∷ cs) (shorter n fuel l p) in
      rw (l, append_assoc (digits fuel (n / 10)) ((48 + n % 10) ∷ []) cs, rest)
        (ground (arith, number n))
]

abbrev pub is_digit : ℕ → Bool
is_digit c = leb 48 c && ltb c 58

abbrev pub starts_with_digit : List ℕ → Bool
starts_with_digit [] = false
starts_with_digit (c ∷ cs) = is_digit c

digits-starts_with_digit :
    (fuel n : ℕ) (cs : List ℕ) → n < fuel → starts_with_digit (digits fuel n ++ cs) ≡ true
unfolding digits
digits-starts_with_digit zero n cs p = ground arith
digits-starts_with_digit (suc fuel) n cs p = elim (Bool-cases (ltb n 10)) [
  | inl l ↦ rw l (ground arith)
  | inr l ↦
      rw (l, append_assoc (digits fuel (n / 10)) ((48 + n % 10) ∷ []) cs)
        (digits-starts_with_digit fuel (n / 10) ((48 + n % 10) ∷ cs) (shorter n fuel l p))
]

pub print_nat-starts_with_digit : (n : ℕ) → starts_with_digit (print_nat n) ≡ true
unfolding print_nat
print_nat-starts_with_digit n =
    subst (λ cs. starts_with_digit cs ≡ true) (append-nil (digits (suc n) n))
      (digits-starts_with_digit (suc n) n [] (omega arith))

pub read_digits-print_nat : (n : ℕ) → read_digits 0 (print_nat n) ≡ (n, [])
unfolding print_nat
read_digits-print_nat n =
    subst (λ cs. read_digits 0 cs ≡ (n, [])) (append-nil (digits (suc n) n))
      (read_digits-digits (suc n) n [] (omega arith))
