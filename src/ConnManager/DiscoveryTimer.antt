-- ===== src/ConnManager/DiscoveryTimer.antt =====
-- include/connManager/serviceDiscovery.h: the timer of a service discovery, which its constructor
-- takes from the manager of the timers, and its destructor. The callback of the timer uses the object
-- by its address: when it is gone, `getConnInfo` reads memory that was freed.
pub mod Dangling
use dbwrapper.Prelude.{ℕ, Bool}
use dbwrapper.ConnManager.Discovery.{ServiceDiscovery, Outcome, done, undefined, get_conn_info}
use dbwrapper.Translib.Timer.{plain, start_forever}
use dbwrapper.Translib.TimerManager.Shared.{Shared, with_timer, get_shared, release}

-- A service discovery with the state of its owner: alive, destroyed, or after undefined behaviour.
pub data Object (S : Type 0) : Type 0 where
  alive : ServiceDiscovery S → S → Object S
  destroyed broken : S → Object S

module _ {S : Type 0} where
  -- The lambda that the constructor gives to its timer.
  unfoldable pub on_timer : Object S → Object S
  unfolding get_conn_info
  on_timer (alive d s) = elim (get_conn_info d s) [
    | undefined t ↦ broken t
    | done (_, d', s') ↦ alive d' s'
  ]
  on_timer (destroyed s) = broken s
  on_timer (broken s) = broken s

  -- `serviceDiscovery()`: the timers; its interval is 5000.
  unfoldable pub start_discovery : Bool → Bool → ℕ → Shared (Object S) → Shared (Object S)
  start_discovery created added address x =
      with_timer address (λ t. (start_forever created added 5000 (plain on_timer) t).1)
        (get_shared address x).1

  -- `~serviceDiscovery()`, which drops the pointer that the member `timer` is.
  unfoldable pub destroy_discovery : ℕ → Shared (Object S) × Object S → Shared (Object S) × Object S
  destroy_discovery address (x, alive d s) = (release address x, destroyed s)
  destroy_discovery address (x, destroyed s) = (x, broken s)
  destroy_discovery address (x, broken s) = (x, broken s)
