-- ===== src/Translib/Timer/Rounds.antt =====
-- How often a handler runs.
use dbwrapper.Prelude.{
  ℕ, zero, suc, ◌+◌, ◌^◌, ◌<◌, ◌≤◌, ◌≡◌, refl, ap, ◌∙◌, Bool, true, none, some, arith, leb,
  if◌then◌else◌, Bool-cases, inl, inr,
}
use dbwrapper.Translib.Timer.{
  Timer, Event, Handler, plain, then_rounds, new_event, is_finished, reset, start_rounds,
  start_once, start_after, run_handler, event_handler, fire, fires,
}

-- `f` applied `n` times.
pub times : {S : Type 0} → ℕ → (S → S) → S → S
times zero f s = s
times (suc n) f s = times n f (f s)

module _ {S : Type 0} where
  -- A timer that waits for its event with a handler, `left` rounds before its last.
  pub record Waits (t : Timer S) (h : Handler S) (left : ℕ) : Type 0 where
    pub period : Event
    pub waits : t.event ≡ some period
    pub handles : t.handler ≡ some h
    pub rounds : t.cur_round + 1 + left ≡ t.round
    pub bounded : t.round + 1 < 2 ^ 64

  abbrev pub next_round : Timer S → Timer S
  next_round t = record t { cur_round = t.cur_round + 1 }

  abbrev pub finished : Timer S → Timer S
  finished t = record t { event = none; cur_round = t.round + 1 }

  pub next_round-Waits :
      (t : Timer S) (h : Handler S) (left : ℕ) → Waits t h (suc left) → Waits (next_round t) h left
  next_round-Waits t h left w = record {
    period = w.period;
    waits = w.waits;
    handles = w.handles;
    rounds = omega (arith, w.rounds);
    bounded = w.bounded;
  }

  abbrev pub started : ℕ → ℕ → Handler S → Timer S → Timer S
  started interval round h t = record t {
    event = some (new_event interval round);
    interval = interval;
    round = round;
    cur_round = 0;
    handler = some h;
  }

  pub started-Waits :
      (interval left : ℕ) (h : Handler S) (t : Timer S)
      → suc left + 1 < 2 ^ 64
      → Waits (started interval (suc left) h t) h left
  started-Waits interval left h t bounded = record {
    period = new_event interval (suc left);
    waits = refl;
    handles = refl;
    rounds = omega arith;
    bounded = bounded;
  }

module _ {S : Type 0} (created added : Bool) where
  -- A timer without an event is quiet.
  pub fires-quiet :
      (n : ℕ) (t : Timer S) (s : S) → t.event ≡ none → fires created added n (t, s) ≡ (t, s)
  unfolding fires fire
  fires-quiet zero t s q = refl
  fires-quiet (suc n) t s q = ground (arith, fires-quiet n t s q)

  pub fire-more :
      (t : Timer S) (h : Handler S) (left : ℕ) (s : S)
      → Waits t h (suc left)
      → fire created added (t, s) ≡ run_handler created added (some h) (next_round t) s
  unfolding fire event_handler
  fire-more t h left s w = ground (arith, w.waits, w.handles, w.rounds, w.bounded)

  pub fire-last :
      (t : Timer S) (h : Handler S) (s : S)
      → Waits t h 0
      → fire created added (t, s) ≡ run_handler created added (some h) (finished t) s
  unfolding fire event_handler reset
  fire-last t h s w = ground (arith, w.waits, w.handles, w.rounds, w.bounded)

  -- Before its last round.
  plain-some :
      (n left : ℕ) (t : Timer S) (f : S → S) (s : S)
      → Waits t (plain f) left
      → n ≤ left
      → fires created added n (t, s) ≡ (record t { cur_round = t.cur_round + n }, times n f s)
  unfolding fires times run_handler
  plain-some zero left t f s w le = ground arith
  plain-some (suc n) zero t f s w le = ground arith
  plain-some (suc n) (suc left) t f s w le = ground (
    arith,
    fire-more t (plain f) left s w,
    plain-some n left (next_round t) f (f s) (next_round-Waits t (plain f) left w),
  )

  -- From its last round on.
  plain-all :
      (n left : ℕ) (t : Timer S) (f : S → S) (s : S)
      → Waits t (plain f) left
      → left < n
      → fires created added n (t, s) ≡ (finished t, times (suc left) f s)
  unfolding fires times run_handler
  plain-all zero left t f s w lt = ground arith
  plain-all (suc n) zero t f s w lt =
      ground (arith, fire-last t (plain f) s w, fires-quiet n (finished t) (f s) refl)
  plain-all (suc n) (suc left) t f s w lt = ground (
    arith,
    fire-more t (plain f) left s w,
    plain-all n left (next_round t) f (f s) (next_round-Waits t (plain f) left w),
  )

  plain-fires :
      (n left : ℕ) (t : Timer S) (f : S → S) (s : S)
      → Waits t (plain f) left
      → let round = suc left in
        ((fires created added n (t, s)).1 ≡ times (if leb n round then n else round) f s)
        × (is_finished (fires created added n (t, s)).0 ≡ leb round n)
  unfolding is_finished
  plain-fires n left t f s w = elim (Bool-cases (leb n left)) [
    | inl le ↦
        let below : n ≤ left = ground arith in rw (plain-some n left t f s w below) (ground arith)
    | inr gt ↦
        let above : left < n = ground arith in rw (plain-all n left t f s w above) (ground arith)
  ]

  pub start_rounds-none :
      (interval round : ℕ) (h : Handler S) (t : Timer S)
      → t.event ≡ none
      → start_rounds true true interval round h t ≡ (true, started interval round h t)
  unfolding start_rounds
  start_rounds-none interval round h t idle = rw (idle, start_rounds)

  -- On an idle timer, where libevent makes and adds the event, a handler that is started for at
  -- least one round, and fewer than 2 ^ 64 - 1, runs once for each time its event becomes
  -- active, until it has run that often, and not again; from then on, and not before, the timer is
  -- finished.
  pub start_rounds-fires :
      (interval round : ℕ) (f : S → S) (t : Timer S) (s : S) (n : ℕ)
      → t.event ≡ none
      → 0 < round
      → round + 1 < 2 ^ 64
      → let (ok, t') = start_rounds true true interval round (plain f) t in
        (ok ≡ true)
        × ((fires created added n (t', s)).1 ≡ times (if leb n round then n else round) f s)
        × (is_finished (fires created added n (t', s)).0 ≡ leb round n)
  unfolding start_rounds is_finished
  start_rounds-fires interval zero f t s n idle some_round bounded = ground arith
  start_rounds-fires interval (suc left) f t s n idle some_round bounded =
      rw (start_rounds-none interval (suc left) (plain f) t idle) (
        let (runs, ends) =
          plain-fires n left _ f s (started-Waits interval left (plain f) t bounded) in
        (refl, runs, ends))

-- After `startAfter` on an idle timer, for at least one round and fewer than 2 ^ 64 - 1, where
-- libevent makes and adds each event, the first run of the timer starts the rounds: the handler runs once for each
-- later time that the event becomes active, until it has run `round` times.
pub start_after-fires :
    {S : Type 0} (after interval round : ℕ) (f : S → S) (t : Timer S) (s : S) (n : ℕ)
    → t.event ≡ none
    → 0 < round
    → round + 1 < 2 ^ 64
    → let (ok, t') = start_after true true after interval round f t in
      (ok ≡ true)
      × ((fires true true (suc n) (t', s)).1 ≡ times (if leb n round then n else round) f s)
unfolding start_after start_once fires run_handler
start_after-fires after interval round f t s n idle some_round bounded =
    let h = then_rounds interval round f in
    let t' = started after 1 h t in
    let (_, runs, _) =
      start_rounds-fires true true interval round f (finished t') s n refl some_round bounded in
    let fired = fire-last true true t' h s (started-Waits after 0 h t (omega arith)) in
    rw (start_rounds-none true true after 1 h t idle)
      (refl, ap (λ x. (fires true true n x).1) fired ∙ runs)
