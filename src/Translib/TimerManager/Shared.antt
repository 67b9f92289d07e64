-- ===== src/Translib/TimerManager/Shared.antt =====
-- include/translib/timerManager.h and src/translib/timerManager.cpp: the timers that the manager
-- hands out, which live as long as a pointer to them does: one in the map of the manager, or one that
-- a caller keeps. A pointer is the address of its timer. A timer that is destroyed resets itself, so
-- that it has no event, and stands at its address without one.
use dbwrapper.Prelude.{
  ℕ, Bool, true, false, ◌||◌, List, [], ◌∷◌, none, some, ◌==◌, if◌then◌else◌, map, keep_if,
}
use dbwrapper.Translib.Timer.{
  Timer, Handler, plain, start_forever, new_timer, is_finished, reset, start_rounds, fire,
}
use dbwrapper.Translib.TimerManager.{TimerManager, find, get_timer, audit_timer, kill_timer}

pub record Shared (S : Type 0) : Type 0 where
  pub manager : TimerManager
  pub timers : ℕ → Timer S
  -- The pointers that callers keep.
  pub held : List ℕ

abbrev pub is_in : ℕ → List ℕ → Bool
is_in a [] = false
is_in a (b ∷ bs) = let rest = is_in a bs in if a == b then true else rest

abbrev pub drop_one : ℕ → List ℕ → List ℕ
drop_one a [] = []
drop_one a (b ∷ bs) = let rest = drop_one a bs in if a == b then bs else b ∷ rest

abbrev pub addresses : List (ℕ × ℕ) → List ℕ
addresses es = map (λ e. e.1) es

-- What can happen to the timers of a manager.
pub data Op (S : Type 0) : Type 0 where
  gets releases kills stops : ℕ → Op S
  audits : Op S
  starts : ℕ → ℕ → ℕ → Handler S → Op S
  fires_at : Bool → Bool → ℕ → Op S

module _ {S : Type 0} where
  -- Whether some pointer to the timer is left.
  abbrev pub is_pointed : ℕ → Shared S → Bool
  is_pointed a x = is_in a (addresses x.manager.t_map) || is_in a x.held

  abbrev pub with_timer : ℕ → (Timer S → Timer S) → Shared S → Shared S
  with_timer a f x = record x { timers = λ b. if b == a then f (x.timers a) else x.timers b }

  -- A pointer was dropped: the last one destroys the timer.
  unfoldable pub settle : ℕ → Shared S → Shared S
  unfolding reset
  settle a x = if is_pointed a x then x else with_timer a reset x

  unfoldable pub settle_all : List ℕ → Shared S → Shared S
  settle_all [] x = x
  settle_all (a ∷ as_) x = settle_all as_ (settle a x)

  -- `getTimer`, whose caller keeps the pointer: the id too.
  unfoldable pub get_shared : ℕ → Shared S → ℕ × Shared S
  unfolding get_timer new_timer
  get_shared address x =
      let (id, m) = get_timer address x.manager in
      (id, record (with_timer address (λ _. new_timer) x) { manager = m; held = address ∷ x.held })

  -- A caller gives a pointer up.
  unfoldable pub release : ℕ → Shared S → Shared S
  release a x = settle a (record x { held = drop_one a x.held })

  -- `killTimer`
  unfoldable pub kill_shared : ℕ → Shared S → Shared S
  unfolding kill_timer settle find
  kill_shared id x =
      let x' = record x { manager = kill_timer id x.manager } in
      elim (find id x.manager.t_map) [ none ↦ x' | some a ↦ settle a x' ]

  -- `auditTimer`
  unfoldable pub audit_shared : Shared S → Shared S
  unfolding audit_timer settle_all
  audit_shared x =
      settle_all (addresses (keep_if (λ e. is_finished (x.timers e.1)) x.manager.t_map))
        (record x { manager = audit_timer x.timers x.manager })

  -- The event of the timer at an address becomes active.
  unfoldable pub fire_at : Bool → Bool → ℕ → Shared S × S → Shared S × S
  unfolding fire
  fire_at created added a (x, s) =
      let (t, s') = fire created added (x.timers a, s) in (with_timer a (λ _. t) x, s')

  unfoldable pub step : Op S → Shared S × S → Shared S × S
  step (gets address) (x, s) = ((get_shared address x).1, s)
  step (releases a) (x, s) = (release a x, s)
  step (kills id) (x, s) = (kill_shared id x, s)
  step audits (x, s) = (audit_shared x, s)
  step (starts a interval round h) (x, s) =
      (with_timer a (λ t. (start_rounds true true interval round h t).1) x, s)
  step (stops a) (x, s) = (with_timer a reset x, s)
  step (fires_at created added a) (x, s) = fire_at created added a (x, s)

  unfoldable pub run : List (Op S) → Shared S × S → Shared S × S
  run [] x = x
  run (op ∷ ops) x = run ops (step op x)

  -- The timer `audit_timer` that both constructors of the manager start, with what libevent returns.
  unfoldable pub start_audit : Bool → Bool → Timer (Shared S)
  unfolding start_forever new_timer audit_shared
  start_audit created added = (start_forever created added 5000 (plain audit_shared) new_timer).1
