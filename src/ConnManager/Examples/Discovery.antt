-- ===== src/ConnManager/Examples/Discovery.antt =====
-- A service discovery and its timer on a small input, and the theorem there.
use dbwrapper.Prelude.{ℕ, ◌+◌, ◌≡◌, refl, true, List, [], ◌∷◌, some, arith}
use dbwrapper.ConnManager.Discovery.{ServiceDiscovery}
use dbwrapper.ConnManager.DiscoveryTimer.{Object, alive, broken, start_discovery, destroy_discovery}
use dbwrapper.ConnManager.DiscoveryTimer.Dangling.{destroy_discovery-broken}
use dbwrapper.ConnManager.Examples.{near}
use dbwrapper.Translib.Timer.{new_timer}
use dbwrapper.Translib.TimerManager.{find}
use dbwrapper.Translib.TimerManager.Shared.{Shared, Op, gets, releases, audits, fire_at, run}

-- It counts the descriptions that appear.
abbrev counting : ServiceDiscovery ℕ
counting = record {
  conn_list = [];
  get_conn_f = some (λ n. near ∷ []);
  cfg_inc = λ info n. n + 1;
  cfg_dec = λ info n. n;
}

abbrev no_timers : Shared (Object ℕ)
no_timers = record {
  manager = record { unique_id = 1; t_map = [] };
  timers = λ a. new_timer;
  held = [];
}

abbrev later_ops : List (Op (Object ℕ))
later_ops = audits ∷ gets 50 ∷ releases 50 ∷ audits ∷ []

destroy_discovery-broken_example :
    (fire_at true true 40 (
      run later_ops
        (destroy_discovery 40 (start_discovery true true 40 no_timers, alive counting 7)))).1
    ≡ broken 7
unfolding find
destroy_discovery-broken_example =
    destroy_discovery-broken 40 no_timers counting 7 later_ops true true refl (omega arith)
      (omega arith)
