-- ===== src/Translib/TimerManager/Goes.antt =====
-- Timers of the manager that go on, over every operation.
use mathlib.Core.Path.{subst}
use dbwrapper.Prelude.{
  ℕ, suc, ◌+◌, ◌≡◌, ◌≢◌, refl, sym, Bool, true, false, List, [], ◌∷◌, some, arith, ◌==◌,
  if◌then◌else◌, All, Bool-cases, Option-cases, inl, inr, keep_if, remove_if,
}
use dbwrapper.Translib.Timer.{
  Timer, Handler, plain, new_timer, is_finished, reset, start_rounds, fire, run_handler,
}
use dbwrapper.Translib.Timer.Rounds.{Waits, next_round, next_round-Waits, fire-more}
use dbwrapper.Translib.TimerManager.{find, emplace, get_timer, audit_timer, kill_timer}
use dbwrapper.Translib.TimerManager.Shared.{
  Shared, Op, gets, releases, kills, stops, audits, starts, fires_at, is_in, addresses, with_timer,
  settle, settle_all, get_shared, release, kill_shared, audit_shared, fire_at, step, run,
}

find-is_in : (id a : ℕ) (es : List (ℕ × ℕ)) → find id es ≡ some a → is_in a (addresses es) ≡ true
unfolding find
find-is_in id a [] e = ground arith
find-is_in id a (x ∷ es) e = ground (arith, find-is_in id a es)

find-remove_if_kept :
    (test : ℕ × ℕ → Bool) (id a : ℕ) (es : List (ℕ × ℕ))
    → find id es ≡ some a
    → test (id, a) ≡ false
    → find id (remove_if test es) ≡ some a
unfolding find
find-remove_if_kept test id a [] e n = e
find-remove_if_kept test id a (x ∷ es) e n = ground (arith, find-remove_if_kept test id a es)

find-emplace_kept :
    (id a i b : ℕ) (es : List (ℕ × ℕ)) → find id es ≡ some a → find id (emplace i b es) ≡ some a
unfolding find emplace
find-emplace_kept id a i b es e = ground (arith)

module _ {S : Type 0} where
  -- A timer that the map knows by its id, and that waits with its handler, `left` rounds before its
  -- last.
  pub record Goes (id a : ℕ) (f : S → S) (left : ℕ) (x : Shared S) : Type 0 where
    pub known : find id x.manager.t_map ≡ some a
    pub going : Waits (x.timers a) (plain f) left

  settle-kept :
      (b : ℕ) (x : Shared S) → ((settle b x).manager ≡ x.manager) × ((settle b x).held ≡ x.held)
  unfolding settle
  settle-kept b x = (ground arith, ground arith)

  settle-timers :
      (id a b : ℕ) (x : Shared S)
      → find id x.manager.t_map ≡ some a
      → (settle b x).timers a ≡ x.timers a
  unfolding settle
  settle-timers id a b x e = ground (arith, find-is_in id a x.manager.t_map)

  pub settle-Goes :
      (id a : ℕ) (f : S → S) (left b : ℕ) (x : Shared S)
      → Goes id a f left x
      → Goes id a f left (settle b x)
  settle-Goes id a f left b x g = record {
    known = subst (λ m. find id m.t_map ≡ some a) (sym (settle-kept b x).0) g.known;
    going = subst (λ t. Waits t (plain f) left) (sym (settle-timers id a b x g.known)) g.going;
  }

  settle_all-Goes :
      (id a : ℕ) (f : S → S) (left : ℕ) (bs : List ℕ) (x : Shared S)
      → Goes id a f left x
      → Goes id a f left (settle_all bs x)
  unfolding settle_all
  settle_all-Goes id a f left [] x g = g
  settle_all-Goes id a f left (b ∷ bs) x g =
      settle_all-Goes id a f left bs (settle b x) (settle-Goes id a f left b x g)

  Waits-not_finished :
      (t : Timer S) (h : Handler S) (left : ℕ) → Waits t h left → is_finished t ≡ false
  unfolding is_finished
  Waits-not_finished t h left w = ground (arith, w.rounds)

  -- An operation that leaves the id and the timer to themselves, but for its event.
  abbrev pub Spares : ℕ → ℕ → Op S → Type 0
  Spares id a (gets b) = b ≢ a
  Spares id a (kills i) = i ≢ id
  Spares id a (stops b) = b ≢ a
  Spares id a _ = Unit

  abbrev pub is_event : ℕ → Op S → Bool
  is_event a (fires_at c d b) = b == a
  is_event a _ = false

  -- How often its event becomes active.
  abbrev pub fired : ℕ → List (Op S) → ℕ
  fired a [] = 0
  fired a (op ∷ ops) = let n = fired a ops in if is_event a op then suc n else n

  start_rounds-busy :
      (interval round : ℕ) (h k : Handler S) (left : ℕ) (t : Timer S)
      → Waits t k left
      → (start_rounds true true interval round h t).1 ≡ t
  unfolding start_rounds
  start_rounds-busy interval round h k left t w = ground (arith, w.waits)

  with_timer-same :
      (b a : ℕ) (g : Timer S → Timer S) (x : Shared S)
      → (b ≡ a → g (x.timers b) ≡ x.timers a)
      → (with_timer b g x).timers a ≡ x.timers a
  with_timer-same b a g x same = elim (Bool-cases (a == b)) [
    | inl e ↦ let q : b ≡ a = ground arith in rw e (same q)
    | inr e ↦ rw e refl
  ]

  with_timer-Goes :
      (id a : ℕ) (f : S → S) (left b : ℕ) (g : Timer S → Timer S) (x : Shared S)
      → Goes id a f left x
      → (b ≡ a → g (x.timers b) ≡ x.timers a)
      → Goes id a f left (with_timer b g x)
  with_timer-Goes id a f left b g x w same = record {
    known = w.known;
    going = subst (λ t. Waits t (plain f) left) (sym (with_timer-same b a g x same)) w.going;
  }

  step-Goes :
      (id a : ℕ) (f : S → S) (left : ℕ) (op : Op S) (x : Shared S) (s : S)
      → Spares id a op
      → is_event a op ≡ false
      → Goes id a f left x
      → Goes id a f left (step op (x, s)).0
  unfolding step get_shared get_timer release kill_shared audit_shared kill_timer audit_timer
      fire_at
  step-Goes id a f left (gets b) x s ne n w = record {
    known = find-emplace_kept id a x.manager.unique_id b x.manager.t_map w.known;
    going = (with_timer-Goes id a f left b (λ _. new_timer) x w (λ e. absurd (ne e))).going;
  }
  step-Goes id a f left (releases b) x s ne n w =
      settle-Goes id a f left b _ (record { known = w.known; going = w.going })
  step-Goes id a f left (kills i) x s ne n w =
      let kept : Goes id a f left (record x { manager = kill_timer i x.manager }) = record {
        known = find-remove_if_kept (λ e. e.0 == i) id a x.manager.t_map w.known (ground arith);
        going = w.going;
      } in
      elim (Option-cases (find i x.manager.t_map)) [
        | inl e ↦ rw (step, kill_shared, e) kept
        | inr (b, e) ↦ rw (step, kill_shared, e) (settle-Goes id a f left b _ kept)
      ]
  step-Goes id a f left (stops b) x s ne n w =
      with_timer-Goes id a f left b reset x w (λ e. absurd (ne e))
  step-Goes id a f left audits x s ne n w =
      settle_all-Goes id a f left
        (addresses (keep_if (λ e. is_finished (x.timers e.1)) x.manager.t_map))
        (record x { manager = audit_timer x.timers x.manager })
        (record {
          known =
              find-remove_if_kept (λ e. is_finished (x.timers e.1)) id a x.manager.t_map w.known
                (Waits-not_finished (x.timers a) (plain f) left w.going);
          going = w.going;
        })
  step-Goes id a f left (starts b interval round h) x s ne n w =
      with_timer-Goes id a f left b (λ t. (start_rounds true true interval round h t).1) x w
        (λ e.
          subst (λ c. (start_rounds true true interval round h (x.timers c)).1 ≡ x.timers a) (sym e)
            (start_rounds-busy interval round h (plain f) left (x.timers a) w.going))
  step-Goes id a f left (fires_at c d b) x s ne n w =
      with_timer-Goes id a f left b (λ t. (fire c d (t, s)).0) x w (λ e. ground arith)

  fire_at-Goes :
      (id a : ℕ) (f : S → S) (left : ℕ) (c d : Bool) (x : Shared S) (s : S)
      → Goes id a f (suc left) x
      → Goes id a f left (fire_at c d a (x, s)).0
  unfolding fire_at run_handler
  fire_at-Goes id a f left c d x s w =
      let t = x.timers a in
      let e : (fire_at c d a (x, s)).0.timers a ≡ next_round t =
        ground (arith, fire-more c d t (plain f) left s w.going) in
      record {
        known = w.known;
        going =
            subst (λ u. Waits u (plain f) left) (sym e) (next_round-Waits t (plain f) left w.going);
      }

  event-Goes :
      (id a : ℕ) (f : S → S) (left : ℕ) (op : Op S) (x : Shared S) (s : S)
      → is_event a op ≡ true
      → Goes id a f (suc left) x
      → Goes id a f left (step op (x, s)).0
  unfolding step
  event-Goes id a f left (fires_at c d b) x s e w =
      subst (λ k. Goes id a f left (fire_at c d k (x, s)).0) (ground arith)
        (fire_at-Goes id a f left c d x s w)
  event-Goes id a f left (gets b) x s e w = cc
  event-Goes id a f left (releases b) x s e w = cc
  event-Goes id a f left (kills i) x s e w = cc
  event-Goes id a f left (stops b) x s e w = cc
  event-Goes id a f left audits x s e w = cc
  event-Goes id a f left (starts b interval round h) x s e w = cc

  pub run-Goes :
      (id a : ℕ) (f : S → S) (left : ℕ) (ops : List (Op S)) (x : Shared S) (s : S)
      → All (Spares id a) ops
      → Goes id a f (fired a ops + left) x
      → Goes id a f left (run ops (x, s)).0
  unfolding run
  run-Goes id a f left [] x s h w = subst (λ n. Goes id a f n x) (omega arith) w
  run-Goes id a f left (op ∷ ops) x s (h, hs) w = elim (Bool-cases (is_event a op)) [
    | inl e ↦ run-Goes id a f left ops (step op (x, s)).0 (step op (x, s)).1 hs (
        event-Goes id a f (fired a ops + left) op x s e
          (subst (λ n. Goes id a f n x) (ground arith) w))
    | inr e ↦ run-Goes id a f left ops (step op (x, s)).0 (step op (x, s)).1 hs (
        step-Goes id a f (fired a ops + left) op x s h e
          (subst (λ n. Goes id a f n x) (ground arith) w))
  ]
