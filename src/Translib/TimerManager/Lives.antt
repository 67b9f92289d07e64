-- ===== src/Translib/TimerManager/Lives.antt =====
-- How long a timer of the manager goes on.
use mathlib.Core.Path.{subst}
use dbwrapper.Prelude.{
  true, leb, ◌^◌, ℕ, zero, suc, ◌-◌, ◌≤◌, ◌≡◌, ◌≢◌, refl, ap, Bool, false, List, [], ◌∷◌, some,
  arith, ◌==◌, if◌then◌else◌, All, All-remove_if, Distinct, Bool-cases, inl, inr, remove_if,
}
use dbwrapper.Translib.Timer.{
  fires, start_forever, new_timer, Timer, plain, reset, fire, run_handler,
}
use dbwrapper.Translib.Timer.Rounds.{times, start_rounds-fires, Waits, fire-more, fire-last}
use dbwrapper.Translib.TimerManager.{find, kill_timer}
use dbwrapper.Translib.TimerManager.Goes.{Spares, fired, run-Goes}
use dbwrapper.Translib.TimerManager.Shared.{
  start_audit, audit_shared, Shared, Op, is_in, addresses, with_timer, settle, kill_shared, fire_at,
  run,
}

find-address_ne :
    (id a b : ℕ) (es : List (ℕ × ℕ)) → find id es ≡ some a → All (λ e. e.1 ≢ b) es → a ≢ b
unfolding find
find-address_ne id a b [] e h = cc
find-address_ne id a b (x ∷ es) e h = ground (arith, find-address_ne id a b es, h.0)

is_in-absent : (a : ℕ) (es : List (ℕ × ℕ)) → All (λ e. e.1 ≢ a) es → is_in a (addresses es) ≡ false
is_in-absent a [] h = refl
is_in-absent a (x ∷ es) h = ground (arith, h.0, is_in-absent a es h.1)

killed-is_in :
    (id a : ℕ) (es : List (ℕ × ℕ))
    → Distinct (λ (e : ℕ × ℕ). e.1) es
    → find id es ≡ some a
    → is_in a (addresses (remove_if (λ e. e.0 == id) es)) ≡ false
unfolding find
killed-is_in id a [] d e = refl
killed-is_in id a (x ∷ es) d e = elim (Bool-cases (x.0 == id)) [
  | inl k ↦
      let p : x.1 ≡ a = ground arith in
      rw k (
        is_in-absent a (remove_if (λ y. y.0 == id) es)
          (All-remove_if _ _ es (subst (λ b. All (λ y. y.1 ≢ b) es) p d.0)))
  | inr k ↦
      let q : find id es ≡ some a = ground arith in
      rw k (ground (arith, find-address_ne id a x.1 es q d.0, killed-is_in id a es d.1 q))
]

module _ {S : Type 0} where
  fire-runs :
      (f : S → S) (left : ℕ) (c d : Bool) (t : Timer S) (s : S)
      → Waits t (plain f) left
      → (fire c d (t, s)).1 ≡ f s
  unfolding run_handler
  fire-runs f zero c d t s w = ap (λ r. r.1) (fire-last c d t (plain f) s w)
  fire-runs f (suc left) c d t s w = ap (λ r. r.1) (fire-more c d t (plain f) left s w)

  -- A timer that the map knows by its id and that waits with its handler, `left` rounds before its
  -- last, goes on whatever happens: after any operations of the manager and of those who keep
  -- pointers, but for a `killTimer` of its id and a `stop` of it, and as long as its event was active
  -- at most `left` times, its next event runs the handler. Nobody needs to keep a pointer to it.
  pub run-fires :
      (id a : ℕ) (f : S → S) (left : ℕ) (ops : List (Op S)) (x : Shared S) (s : S) (c d : Bool)
      → find id x.manager.t_map ≡ some a
      → Waits (x.timers a) (plain f) left
      → All (Spares id a) ops
      → fired a ops ≤ left
      → (fire_at c d a (run ops (x, s))).1 ≡ f (run ops (x, s)).1
  unfolding fire_at
  run-fires id a f left ops x s c d e w h le =
      let g =
        (run-Goes id a f (left - fired a ops) ops x s h (record {
          known = e;
          going = subst (λ n. Waits (x.timers a) (plain f) n) (omega arith) w;
        })) in
      fire-runs f (left - fired a ops) c d ((run ops (x, s)).0.timers a) (run ops (x, s)).1 g.going

  -- After `killTimer` the next event of a timer that was waiting under this id alone still runs its
  -- handler if a caller keeps a pointer to the timer, and otherwise the timer is destroyed and its
  -- handler does not run.
  pub kill_shared-fires :
      (id a : ℕ) (f : S → S) (left : ℕ) (x : Shared S) (s : S) (c d : Bool)
      → Distinct (λ (e : ℕ × ℕ). e.1) x.manager.t_map
      → find id x.manager.t_map ≡ some a
      → Waits (x.timers a) (plain f) left
      → (fire_at c d a (kill_shared id x, s)).1 ≡ (if is_in a x.held then f s else s)
  unfolding kill_shared kill_timer settle fire_at fire reset
  kill_shared-fires id a f left x s c d owners e w =
      let gone = killed-is_in id a x.manager.t_map owners e in
      elim (Bool-cases (is_in a x.held)) [
        | inl h ↦
            let k : kill_shared id x ≡ record x { manager = kill_timer id x.manager } =
              ground (arith, e, h) in
            rw (h, k) (fire-runs f left c d (x.timers a) s w)
        | inr h ↦
            let k : kill_shared id x
                ≡ with_timer a reset (record x { manager = kill_timer id x.manager }) =
              ground (arith, e, h, gone) in
            rw (h, k) (ground (arith, w.waits))
      ]

  -- The audit runs once for each event of its timer, 2 ^ 32 - 1 times, and then never again.
  start_audit-fires :
      (created added : Bool) (n : ℕ) (x : Shared S)
      → (fires created added n (start_audit true true, x)).1
        ≡ times (if leb n (2 ^ 32 - 1) then n else 2 ^ 32 - 1) audit_shared x
  unfolding start_audit start_forever
  start_audit-fires created added n x =
      (start_rounds-fires created added 5000 (2 ^ 32 - 1) audit_shared new_timer x n refl
        (omega arith) (omega arith)).1
