-- ===== src/Redis/Wire.antt =====
-- A reader of the Redis protocol's arrays of bulk strings, and that it reads what the client formats.
use mathlib.Core.List.{append_assoc}
use mathlib.Core.Path.{subst}
use dbwrapper.Prelude.{
  ℕ, zero, suc, ◌≡◌, refl, sym, ◌&&◌, List, [], ◌∷◌, ◌++◌, Option, none, some, length, take, drop,
  ltb, ◌==◌, if◌then◌else◌, arith, take-append, drop-append, length-append,
}
use dbwrapper.Prelude.Decimal.{read_digits, read_digits-digits}
use dbwrapper.Redis.Command.{print_nat, crlf, format_args, format_command}

abbrev pub read_crlf : List ℕ → Option (List ℕ)
read_crlf (c ∷ d ∷ cs) = if (c == 13) && (d == 10) then some cs else none
read_crlf _ = none

-- The line ends after a number.
abbrev pub end_header : ℕ × List ℕ → Option (ℕ × List ℕ)
end_header (n, rest) = elim (read_crlf rest) [ none ↦ none | some cs ↦ some (n, cs) ]

-- A mark, a number and the end of the line.
unfoldable pub read_header : ℕ → List ℕ → Option (ℕ × List ℕ)
read_header mark [] = none
read_header mark (c ∷ cs) = if c == mark then end_header (read_digits 0 cs) else none

-- So many bytes and the end of the line.
abbrev pub read_body : ℕ × List ℕ → Option (List ℕ × List ℕ)
read_body (n, body) =
    if ltb (length body) n
    then none
    else elim (read_crlf (drop n body)) [ none ↦ none | some cs ↦ some (take n body, cs) ]

unfoldable pub read_bulk : List ℕ → Option (List ℕ × List ℕ)
read_bulk cs = elim (read_header 36 cs) [ none ↦ none | some p ↦ read_body p ]

unfoldable pub read_bulks : ℕ → List ℕ → Option (List (List ℕ) × List ℕ)
read_bulks zero cs = some ([], cs)
read_bulks (suc n) cs = elim (read_bulk cs) [
  | none ↦ none
  | some (a, cs') ↦ elim (read_bulks n cs') [
    | none ↦ none
    | some (argv, rest) ↦ some (a ∷ argv, rest)
  ]
]

unfoldable pub read_command : List ℕ → Option (List (List ℕ) × List ℕ)
read_command cs = elim (read_header 42 cs) [ none ↦ none | some (n, body) ↦ read_bulks n body ]

read_digits-print :
    (n : ℕ) (cs : List ℕ) → read_digits 0 (print_nat n ++ (crlf ++ cs)) ≡ (n, crlf ++ cs)
unfolding print_nat
read_digits-print n cs = rw (read_digits-digits (suc n) n (crlf ++ cs) (omega arith)) refl

read_header-print :
    (mark n : ℕ) (cs : List ℕ)
    → read_header mark (mark ∷ (print_nat n ++ (crlf ++ cs))) ≡ some (n, cs)
unfolding read_header
read_header-print mark n cs = rw (read_digits-print n cs) (ground arith)

read_body-format : (a cs : List ℕ) → read_body (length a, a ++ (crlf ++ cs)) ≡ some (a, cs)
read_body-format a cs =
    rw (drop-append a (crlf ++ cs), take-append a (crlf ++ cs), length-append a (crlf ++ cs))
      (ground arith)

read_bulk-format :
    (a cs : List ℕ)
    → read_bulk (36 ∷ (print_nat (length a) ++ (crlf ++ (a ++ (crlf ++ cs))))) ≡ some (a, cs)
unfolding read_bulk
read_bulk-format a cs =
    rw (read_bulk, read_header-print 36 (length a) (a ++ (crlf ++ cs))) (read_body-format a cs)

format_args-cons :
    (a : List ℕ) (argv : List (List ℕ)) (cs : List ℕ)
    → format_args (a ∷ argv) ++ cs
      ≡ 36 ∷ (print_nat (length a) ++ (crlf ++ (a ++ (crlf ++ (format_args argv ++ cs)))))
unfolding format_args
format_args-cons a argv cs =
    let rest = format_args argv in
    rw
      (
        append_assoc (print_nat (length a)) (crlf ++ (a ++ (crlf ++ rest))) cs,
        append_assoc a (crlf ++ rest) cs,
      )
      refl

read_bulks-step :
    (n : ℕ) (a cs cs' rest : List ℕ) (argv : List (List ℕ))
    → read_bulk cs ≡ some (a, cs')
    → read_bulks n cs' ≡ some (argv, rest)
    → read_bulks (suc n) cs ≡ some (a ∷ argv, rest)
unfolding read_bulks
read_bulks-step n a cs cs' rest argv e1 e2 = rw (read_bulks, e1, e2) refl

read_bulks-format :
    (argv : List (List ℕ)) (cs : List ℕ)
    → read_bulks (length argv) (format_args argv ++ cs) ≡ some (argv, cs)
unfolding read_bulks format_args
read_bulks-format [] cs = refl
read_bulks-format (a ∷ argv) cs =
    let rest = format_args argv ++ cs in
    subst (λ x. read_bulks (suc (length argv)) x ≡ some (a ∷ argv, cs))
      (sym (format_args-cons a argv cs))
      (read_bulks-step (length argv) a _ rest cs argv (read_bulk-format a rest)
        (read_bulks-format argv cs))

-- A server that reads commands gets from the text of one its arguments, whatever bytes they hold, and
-- goes on with what follows it.
pub read_command-format :
    (argv : List (List ℕ)) (cs : List ℕ)
    → read_command (format_command argv ++ cs) ≡ some (argv, cs)
unfolding format_command read_command
read_command-format argv cs =
    rw
      (
        append_assoc (print_nat (length argv)) (crlf ++ format_args argv) cs,
        read_command,
        read_header-print 42 (length argv) (format_args argv ++ cs),
      )
      (read_bulks-format argv cs)
