-- ===== src/Tasks/Interval.antt =====
-- include/task_base/task_manager.hpp: what `set_hb_interval` does to a heartbeat that runs already.
use dbwrapper.Prelude.{ℕ, ◌≡◌, refl, List, [], ◌∷◌, arith}
use dbwrapper.Translib.TimerManager.{loop_manager, get_timer}
use dbwrapper.Tasks.Task.{
  Task, HbState, manager, new_task, new_manager_task, set_hb_interval, restart_hb, on_before_loop,
  start_hb,
}

module _ {F W : Type 0} where
  -- Calls of `set_hb_interval`, each with the address of a timer that it may make.
  unfoldable pub set_hb_intervals : List (ℕ × ℕ) → Task F W → Task F W
  unfolding set_hb_interval
  set_hb_intervals [] t = t
  set_hb_intervals ((at, interval) ∷ l) t = set_hb_intervals l (set_hb_interval at interval t)

  -- The heartbeat's timers of a task with the timer 0.
  abbrev IsBeating : ℕ → Task F W → Type 0
  IsBeating interval t =
      (h : HbState) × (t.kind ≡ manager h) × (h.hb_tid ≡ 0) × (h.hb_timers ≡ (0, interval) ∷ [])

  set_hb_interval-IsBeating :
      (at n interval : ℕ) (t : Task F W)
      → IsBeating interval t
      → IsBeating interval (set_hb_interval at n t)
  unfolding set_hb_interval restart_hb
  set_hb_interval-IsBeating at n interval t (h, k, z, e) = (h, ground arith, z, e)

  set_hb_intervals-IsBeating :
      (l : List (ℕ × ℕ)) (interval : ℕ) (t : Task F W)
      → IsBeating interval t
      → IsBeating interval (set_hb_intervals l t)
  unfolding set_hb_intervals
  set_hb_intervals-IsBeating [] interval t b = b
  set_hb_intervals-IsBeating ((at, n) ∷ l) interval t b =
      set_hb_intervals-IsBeating l interval (set_hb_interval at n t)
        (set_hb_interval-IsBeating at n interval t b)

-- The first timer of a task has the id 0, which `set_hb_interval` takes for no timer: once the
-- heartbeat of a new TASK0 has started, no call of `set_hb_interval` changes its timer.
set_hb_intervals-started :
    (F W : Type 0) (residue at interval at' : ℕ) (l : List (ℕ × ℕ))
    → (h : HbState) × ((set_hb_intervals l (
          on_before_loop at'
            (set_hb_interval {F = F} {W = W} at interval (new_manager_task residue)))).kind
        ≡ manager h)
      × (h.hb_timers ≡ (0, interval) ∷ [])
unfolding set_hb_interval restart_hb on_before_loop start_hb new_manager_task new_task loop_manager
    get_timer
set_hb_intervals-started F W residue at interval at' l =
    let t : Task F W =
      on_before_loop at' (set_hb_interval at interval (new_manager_task residue)) in
    let (h, k, _, e) = set_hb_intervals-IsBeating l interval t (_, refl, refl, refl) in (h, k, e)
