-- ===== src/Translib/Examples/Timers.antt =====
-- Timers that a manager hands out on a small input, and the theorems there.
use dbwrapper.Prelude.{ℕ, ◌+◌, ◌≡◌, refl, true, List, [], ◌∷◌, arith, ◌==◌, if◌then◌else◌}
use dbwrapper.Translib.Timer.{Timer, plain, new_timer}
use dbwrapper.Translib.Timer.Rounds.{started, started-Waits}
use dbwrapper.Translib.TimerManager.{find}
use dbwrapper.Translib.TimerManager.Shared.{
  Shared, Op, gets, releases, kills, audits, starts, fires_at, kill_shared, fire_at, run,
}
use dbwrapper.Translib.TimerManager.Lives.{run-fires, kill_shared-fires}

abbrev count : ℕ → ℕ
count s = s + 1

abbrev counting : Timer ℕ
counting = started 100 3 (plain count) new_timer

-- The timer at 40 is known by the id 1, and nobody keeps a pointer to it.
abbrev some_timers : Shared ℕ
some_timers = record {
  manager = record { unique_id = 2; t_map = (1, 40) ∷ [] };
  timers = λ a. if a == 40 then counting else new_timer;
  held = [];
}

abbrev some_ops : List (Op ℕ)
some_ops =
    gets 50
    ∷ audits
    ∷ fires_at true true 40
    ∷ starts 50 100 2 (plain count)
    ∷ kills 2
    ∷ releases 50
    ∷ []

run-fires_example :
    (fire_at true true 40 (run some_ops (some_timers, 0))).1
    ≡ count (run some_ops (some_timers, 0)).1
unfolding find new_timer
run-fires_example =
    run-fires 1 40 count 2 some_ops some_timers 0 true true refl
      (started-Waits 100 2 (plain count) new_timer (omega arith)) (omega arith) (omega arith)

kill_shared-fires_example : (fire_at true true 40 (kill_shared 1 some_timers, 0)).1 ≡ 0
unfolding find new_timer
kill_shared-fires_example =
    kill_shared-fires 1 40 count 2 some_timers 0 true true (tt, tt) refl
      (started-Waits 100 2 (plain count) new_timer (omega arith))
