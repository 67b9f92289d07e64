-- ===== src/Tasks/Watch.antt =====
-- When nothing in `hb_map` is overdue, and what answers make of it.
use mathlib.Core.Path.{subst}
use dbwrapper.Prelude.{
  ℕ, ◌≡◌, sym, refl, Bool, true, false, inl, inr, List, [], ◌∷◌, some, if◌then◌else◌, arith, All,
  Bool-cases, keep_if,
}
use dbwrapper.Prelude.Order.{string_eqb, string_ltb, string_eqb-eq}
use dbwrapper.Prelude.OrderedMap.{find, assign, IsOrdered, assign-IsOrdered}
use dbwrapper.Tasks.Message.{TaskMsg}
use dbwrapper.Tasks.Task.{Task, HbState}
use dbwrapper.Tasks.Rounds.{is_overdue, some_gone}
use dbwrapper.Tasks.Stalled.{received}
use dbwrapper.Tasks.Answers.{received-cases, received_all}

-- Whether a name is in a list.
abbrev pub among : List ℕ → List (List ℕ) → Bool
among k [] = false
among k (j ∷ l) = let rest = among k l in if string_eqb k j then true else rest

-- An entry that is not overdue, or whose name is in the list.
abbrev pub is_covered : List (List ℕ) → List ℕ × Bool → Bool
is_covered l e = if is_overdue e then among e.0 l else true

abbrev pub IsCovered : List (List ℕ) → List (List ℕ × Bool) → Type 0
IsCovered l m = All (λ e. is_covered l e ≡ true) m

assign-IsCovered :
    (l : List (List ℕ)) (name : List ℕ) (m : List (List ℕ × Bool))
    → IsCovered l m
    → IsCovered l (assign name true m)
unfolding assign
assign-IsCovered l name [] c = (ground arith, tt)
assign-IsCovered l name (e ∷ m) (c, cs) = elim (Bool-cases (string_eqb name e.0)) [
  | inl u ↦ rw u (ground arith, cs)
  | inr u ↦ elim (Bool-cases (string_ltb name e.0)) [
    | inl v ↦ rw (u, v) (ground arith, (c, cs))
    | inr v ↦ rw (u, v) (c, assign-IsCovered l name m cs)
  ]
]

-- What the members of TASK0 keep over messages.
abbrev pub IsWatching : List (List ℕ) → HbState → Type 0
IsWatching l h = (h.first_loop ≡ false) × IsOrdered h.hb_map × IsCovered l h.hb_map

received-IsWatching :
    (l : List (List ℕ)) (m : TaskMsg) (h : HbState) → IsWatching l h → IsWatching l (received m h)
received-IsWatching l m h (f, o, c) = elim (received-cases m h) [
  | inl e ↦ subst (IsWatching l) (sym e) (f, o, c)
  | inr (name, e) ↦
      subst (IsWatching l) (sym e)
        (f, assign-IsOrdered name true h.hb_map o, assign-IsCovered l name h.hb_map c)
]

pub received_all-IsWatching :
    (l : List (List ℕ)) (q : List TaskMsg) (h : HbState)
    → IsWatching l h
    → IsWatching l (received_all q h)
received_all-IsWatching l [] h w = w
received_all-IsWatching l (m ∷ q) h w =
    received_all-IsWatching l q (received m h) (received-IsWatching l m h w)

-- With all names of the list answered, nothing is overdue.
abbrev pub IsRecorded : List (List ℕ) → List (List ℕ × Bool) → Type 0
IsRecorded l m = All (λ k. find k m ≡ some true) l

among-IsRecorded :
    (k : List ℕ) (l : List (List ℕ)) (m : List (List ℕ × Bool))
    → IsRecorded l m
    → among k l ≡ true
    → find k m ≡ some true
among-IsRecorded k [] m r a = ground arith
among-IsRecorded k (j ∷ l) m (r, rs) a =
    ground (arith, r, among-IsRecorded k l m rs, string_eqb-eq k j)

pub not_overdue :
    (l : List (List ℕ)) (m n : List (List ℕ × Bool))
    → IsRecorded l m
    → All (λ e. find e.0 m ≡ some e.1) n
    → IsCovered l n
    → All (λ e. is_overdue e ≡ false) n
not_overdue l m [] r f c = tt
not_overdue l m (e ∷ n) r (f, fs) (c, cs) =
    (ground (arith, among-IsRecorded e.0 l m r, f, c), not_overdue l m n r fs cs)

pub keep_if-none :
    (n : List (List ℕ × Bool)) → All (λ e. is_overdue e ≡ false) n → keep_if is_overdue n ≡ []
keep_if-none [] a = refl
keep_if-none (e ∷ n) (a, as_) = rw a (keep_if-none n as_)

pub some_gone-none :
    {F W : Type 0} (n : List (List ℕ × Bool)) (tasks : List (List ℕ × Task F W))
    → All (λ e. is_overdue e ≡ false) n
    → some_gone n tasks ≡ false
unfolding some_gone
some_gone-none [] tasks a = refl
some_gone-none (e ∷ n) tasks (a, as_) = rw a (some_gone-none n tasks as_)
