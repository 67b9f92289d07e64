-- ===== src/Translib/Tpkt/Port.antt =====
-- include/translib/tcpClientTPKT.h: `connect_with_IP`, which takes the port as a text. `connect` is that
-- of the client. `stoi` is `std::stoi`, which throws, as none, when there is no number or when it is
-- no `int`.
use dbwrapper.Prelude.{
  ℕ, ◌-◌, ◌%◌, ◌^◌, ◌≡◌, refl, Bool, true, false, ◌&&◌, ◌||◌, List, [], ◌∷◌, Option, none, some,
  ltb, leb, ◌==◌, if◌then◌else◌, ℤ, pos, negsuc, arith,
}
use dbwrapper.Prelude.Decimal.{
  print_nat, read_digits, starts_with_digit, print_nat-starts_with_digit, read_digits-print_nat,
}

abbrev is_space : ℕ → Bool
is_space c = c == 32 || leb 9 c && leb c 13

unfoldable pub skip_spaces : List ℕ → List ℕ
skip_spaces [] = []
skip_spaces (c ∷ cs) = let rest = skip_spaces cs in if is_space c then rest else c ∷ cs

-- The digits after the sign.
abbrev pub int_of : Bool → List ℕ → Option ℤ
int_of negative cs =
    let n = (read_digits 0 cs).0 in
    if starts_with_digit cs
    then (if negative
        then (if leb n (2 ^ 31) then some (if n == 0 then pos 0 else negsuc (n - 1)) else none)
        else (if ltb n (2 ^ 31) then some (pos n) else none))
    else none

abbrev pub signed : List ℕ → Option ℤ
signed [] = none
signed (c ∷ cs) =
    if c == 45 then int_of true cs else if c == 43 then int_of false cs else int_of false (c ∷ cs)

unfoldable pub stoi : List ℕ → Option ℤ
unfolding skip_spaces
stoi cs = signed (skip_spaces cs)

-- The conversion to `uint16_t`.
abbrev pub as_uint16 : ℤ → ℕ
as_uint16 (pos n) = n % 2 ^ 16
as_uint16 (negsuc n) = 2 ^ 16 - 1 - n % 2 ^ 16

-- `connect_with_IP`
unfoldable pub connect_with_ip :
    {S : Type 0} → (List ℕ → ℕ → S → Bool × S) → List ℕ → List ℕ → S → Option (Bool × S)
connect_with_ip connect ip port s = elim (stoi port) [
  | none ↦ none
  | some n ↦ some (connect ip (as_uint16 n) s)
]

stoi-starts_with_digit : (cs : List ℕ) → starts_with_digit cs ≡ true → stoi cs ≡ int_of false cs
unfolding stoi
stoi-starts_with_digit [] h = cc
stoi-starts_with_digit (c ∷ cs) h = ground arith

stoi-print_nat : (n : ℕ) → stoi (print_nat n) ≡ (if ltb n (2 ^ 31) then some (pos n) else none)
stoi-print_nat n =
    rw
      (
        stoi-starts_with_digit (print_nat n) (print_nat-starts_with_digit n),
        print_nat-starts_with_digit n,
        read_digits-print_nat n,
      )
      refl

-- For the decimal text of a number below 2 ^ 31 the client connects to that port modulo 2 ^ 16, so
-- that the ports from 65536 on are others than they say; for a larger number the conversion throws, and
-- nothing is called.
connect_with_ip-print_nat :
    {S : Type 0} (connect : List ℕ → ℕ → S → Bool × S) (ip : List ℕ) (n : ℕ) (s : S)
    → connect_with_ip connect ip (print_nat n) s
      ≡ (if ltb n (2 ^ 31) then some (connect ip (n % 2 ^ 16) s) else none)
unfolding connect_with_ip
connect_with_ip-print_nat connect ip n s = ground (arith, stoi-print_nat n)
