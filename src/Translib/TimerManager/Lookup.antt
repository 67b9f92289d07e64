-- ===== src/Translib/TimerManager/Lookup.antt =====
-- Which timers the manager knows.
use dbwrapper.Prelude.{
  ℕ, ◌+◌, ◌^◌, ◌<◌, ◌≡◌, ◌≢◌, refl, Bool, List, [], ◌∷◌, none, some, arith, ◌==◌, if◌then◌else◌,
  All, All-map, All-remove_if, Distinct, remove_if,
}
use dbwrapper.Translib.Timer.{Timer, is_finished}
use dbwrapper.Translib.TimerManager.{
  TimerManager, find, emplace, get_timer, audit_timer, kill_timer,
}

-- The ids in the map are distinct, and the counter has passed them.
pub record HasFreshIds (m : TimerManager) : Type 0 where
  pub keys : Distinct (λ (e : ℕ × ℕ). e.0) m.t_map
  pub below : All (λ e. e.0 < m.unique_id) m.t_map

find_absent : (id : ℕ) (es : List (ℕ × ℕ)) → All (λ e. e.0 ≢ id) es → find id es ≡ none
unfolding find
find_absent id [] h = refl
find_absent id (e ∷ es) h = ground (arith, find_absent id es h.1)

find-remove_if :
    (test : ℕ × ℕ → Bool) (id : ℕ) (es : List (ℕ × ℕ))
    → Distinct (λ (e : ℕ × ℕ). e.0) es
    → find id (remove_if test es)
      ≡ (elim (find id es) [ none ↦ none | some a ↦ if test (id, a) then none else some a ])
unfolding find
find-remove_if test id [] u = refl
find-remove_if test id (e ∷ es) u = ground (
  arith,
  find-remove_if test id es u.1,
  find_absent e.0 (remove_if test es) (All-remove_if _ test es u.0),
)

fresh : (m : TimerManager) → HasFreshIds m → All (λ e. e.0 ≢ m.unique_id) m.t_map
fresh m h = All-map (λ e lt. omega arith) m.t_map h.below

-- While the ids are fresh and the counter does not wrap, `getTimer` adds the new timer under the id that it returns,
-- leaves every other id as it was, and keeps the ids fresh.
pub get_timer-find :
    (address : ℕ) (m : TimerManager) (id : ℕ)
    → m.unique_id + 1 < 2 ^ 32
    → HasFreshIds m
    → let (new, m') = get_timer address m in
      (find id m'.t_map ≡ (if id == new then some address else find id m.t_map)) × HasFreshIds m'
unfolding get_timer emplace find
get_timer-find address m id fits h =
    let absent = find_absent m.unique_id m.t_map (fresh m h) in
    rw (absent, emplace)
      (
        ground arith,
        record {
          keys = (fresh m h, h.keys);
          below = (omega arith, All-map (λ e lt. omega arith) m.t_map h.below);
        },
      )

-- Where the ids are distinct, after `auditTimer` an id stands for the timer that it stood for if that timer is not finished, and
-- otherwise for none.
pub audit_timer-find :
    {S : Type 0} (timers : ℕ → Timer S) (m : TimerManager) (id : ℕ)
    → HasFreshIds m
    → find id (audit_timer timers m).t_map ≡ (elim (find id m.t_map) [
      | none ↦ none
      | some a ↦ if is_finished (timers a) then none else some a
    ])
unfolding audit_timer
audit_timer-find timers m id h = find-remove_if (λ e. is_finished (timers e.1)) id m.t_map h.keys

-- Where the ids are distinct, after `killTimer` the id stands for no timer, and every other id for the one it stood for.
pub kill_timer-find :
    (killed : ℕ) (m : TimerManager) (id : ℕ)
    → HasFreshIds m
    → find id (kill_timer killed m).t_map ≡ (if id == killed then none else find id m.t_map)
unfolding kill_timer
kill_timer-find killed m id h =
    ground (arith, find-remove_if (λ e. e.0 == killed) id m.t_map h.keys)
