-- ===== src/Translib/TimerManager.antt =====
-- include/translib/timerManager.h and src/translib/timerManager.cpp: `TimerManager`, the map of the
-- timers that it made, from their ids to their addresses. The ids are the 32-bit patterns of an
-- `int`. The order of the map is not determined; a new element stands at the front.
-- The loop and the timer that runs `auditTimer` are left out, and so is what happens to a timer that
-- no pointer holds any more.
pub mod Lookup
pub mod Shared
pub mod Goes
pub mod Lives
use dbwrapper.Prelude.{
  ℕ, ◌+◌, ◌%◌, ◌^◌, Bool, List, [], ◌∷◌, Option, none, some, ◌==◌, if◌then◌else◌, remove_if,
}
use dbwrapper.Translib.Timer.{Timer, is_finished}

pub record TimerManager : Type 0 where
  pub unique_id : ℕ
  pub t_map : List (ℕ × ℕ)

-- `TimerManager()`, and `TimerManager(loop)`.
unfoldable pub instance_manager : TimerManager
instance_manager = record { unique_id = 1; t_map = [] }

unfoldable pub loop_manager : TimerManager
loop_manager = record { unique_id = 0; t_map = [] }

-- `find`
unfoldable pub find : ℕ → List (ℕ × ℕ) → Option ℕ
find id [] = none
find id (e ∷ es) = let rest = find id es in if e.0 == id then some e.1 else rest

-- `emplace`: an element whose key is there already is not replaced.
unfoldable pub emplace : ℕ → ℕ → List (ℕ × ℕ) → List (ℕ × ℕ)
unfolding find
emplace id address es = elim (find id es) [ none ↦ (id, address) ∷ es | some _ ↦ es ]

-- `getTimer`, whose new timer stands at `address`: the id and the manager.
unfoldable pub get_timer : ℕ → TimerManager → ℕ × TimerManager
unfolding emplace
get_timer address m = (
  m.unique_id,
  record { unique_id = (m.unique_id + 1) % 2 ^ 32; t_map = emplace m.unique_id address m.t_map },
)

-- `auditTimer`, where `timers` are the timers at their addresses.
unfoldable pub audit_timer : {S : Type 0} → (ℕ → Timer S) → TimerManager → TimerManager
audit_timer timers m = record m { t_map = remove_if (λ e. is_finished (timers e.1)) m.t_map }

-- `killTimer`
unfoldable pub kill_timer : ℕ → TimerManager → TimerManager
kill_timer id m = record m { t_map = remove_if (λ e. e.0 == id) m.t_map }
