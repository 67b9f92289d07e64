-- ===== src/ConnManager/Examples/Manager.antt =====
-- A manager with a pool whose two connections report, one after the other, and the theorems there.
use dbwrapper.Prelude.{
  ℕ, ◌+◌, ◌≡◌, ◌≢◌, refl, List, [], ◌∷◌, some, arith, map, All, length, ◌++◌, ◌==◌, remove_if,
  if◌then◌else◌,
}
use dbwrapper.ConnManager.Info.{is_local, conn_inc}
use dbwrapper.ConnManager.Pool.{Pool, Conn, Residue, new_conn, size, conns}
use dbwrapper.ConnManager.Pool
use dbwrapper.ConnManager.Manager.History.{
  serves, Reach, here, next, adds_pool, gains, reports, Reach-IsSound, reports_never_fault,
}
use dbwrapper.ConnManager.Manager.Soundness.{IsSound}
use dbwrapper.ConnManager.Manager.Delivery.{
  on_connected_lem, on_disconnected_lem, on_disconnected_last,
}
use dbwrapper.ConnManager.Manager.Serving.{
  get_conns, get_conns-pools, del_conn-All, new_conn-on_connected,
}
use dbwrapper.ConnManager.Manager.LateId.{add_pool_strands}
use dbwrapper.ConnManager.Manager.{
  World, new_manager, add_pool, get_conn, add_conn, new_conns, start_conns, del_conn,
}
use dbwrapper.ConnManager.Manager.Reports.{
  pool_at, put_pool, with_pool, on_connected, on_disconnected,
}
use dbwrapper.ConnManager.Manager.Wiring.{Owns}
use dbwrapper.ConnManager.Examples.{near, far}

abbrev residue : Residue
residue = record { id = 77; pool_inc_id = 0; pool_dec_id = 0 }

-- A manager with one description and then one pool, whose connections start afterwards.
abbrev at_1000 : ℕ → ℕ
at_1000 n = 1000 + n

abbrev with_one_pool : World
with_one_pool = (add_pool at_1000 residue (new_manager 100)).1

abbrev two_started : World
two_started = add_conn (λ n. 2000 + n) far (add_conn (λ n. 3000 + n) near with_one_pool)

test_started :
    map {B = ℕ × ℕ} (λ c. (c.address, c.pool_index)) two_started.started
    ≡ (3000, 4) ∷ (2000, 4) ∷ []
unfolding new_manager add_pool add_conn new_conns start_conns new_conn
test_started = refl

abbrev the_pool : Pool
the_pool = record {
  address = 1000;
  id = 4;
  conn_inc_id = 3;
  conn_dec_id = 2;
  pool_inc_id = 0;
  pool_dec_id = 1;
  local_list = [];
  remote_list = [];
}

test_the_pool : two_started.manager.pool_list ≡ the_pool ∷ []
unfolding new_manager add_pool add_conn
test_the_pool = refl

abbrev near_conn : Conn
near_conn = new_conn the_pool 3000 near

abbrev far_conn : Conn
far_conn = new_conn the_pool 2000 far

-- The pool after the reports of its two connections.
abbrev near_pool : Pool
near_pool = Pool.add_conn the_pool near_conn

abbrev full_pool : Pool
full_pool = Pool.add_conn near_pool far_conn

abbrev near_connected : World
near_connected = with_pool near_pool two_started

abbrev both_connected : World
both_connected = with_pool full_pool near_connected

two_started-Reach : Reach (new_manager 100) two_started
unfolding new_manager
two_started-Reach =
    next
      (next (next here (adds_pool at_1000 residue (new_manager 100) (omega arith) tt))
        (gains (λ n. 3000 + n) near with_one_pool))
      (gains (λ n. 2000 + n) far (add_conn (λ n. 3000 + n) near with_one_pool))

two_started-IsSound : IsSound two_started
two_started-IsSound = Reach-IsSound 100 two_started-Reach

the_pool_alive : pool_at 1000 two_started.manager.pool_list ≡ some the_pool
unfolding new_manager add_pool add_conn pool_at
the_pool_alive = refl

near_connected-Reach : Reach (new_manager 100) near_connected
unfolding on_connected new_conn
near_connected-Reach = next two_started-Reach (
    reports at_1000 residue conn_inc near_conn 3 {w = two_started} {w' = near_connected} (
      new_conn-on_connected at_1000 residue two_started the_pool 3000 near two_started-IsSound
        the_pool_alive))

near_connected-IsSound : IsSound near_connected
near_connected-IsSound = Reach-IsSound 100 near_connected-Reach

near_pool_alive : pool_at 1000 near_connected.manager.pool_list ≡ some near_pool
unfolding new_manager add_pool add_conn pool_at put_pool Pool.add_conn new_conn is_local
near_pool_alive = refl

on_connected_lem_example :
    on_connected at_1000 residue far_conn near_connected ≡ some both_connected
unfolding Pool.add_conn is_local new_conn
on_connected_lem_example =
    on_connected_lem at_1000 residue near_connected near_connected-IsSound near_pool near_pool_alive
      far_conn refl refl

both_connected-Reach : Reach (new_manager 100) both_connected
unfolding on_connected new_conn Pool.add_conn is_local
both_connected-Reach = next near_connected-Reach (
    reports at_1000 residue conn_inc far_conn 3 {w = near_connected} {w' = both_connected} (
      on_connected_lem at_1000 residue near_connected near_connected-IsSound near_pool
        near_pool_alive far_conn refl refl))

both_connected-IsSound : IsSound both_connected
both_connected-IsSound = Reach-IsSound 100 both_connected-Reach

full_pool_alive : pool_at 1000 both_connected.manager.pool_list ≡ some full_pool
unfolding new_manager add_pool add_conn pool_at put_pool Pool.add_conn new_conn is_local
full_pool_alive = refl

on_disconnected_lem_example :
    on_disconnected at_1000 residue near_conn both_connected
    ≡ some (with_pool (record full_pool { local_list = [] }) both_connected)
unfolding new_conn is_local Pool.add_conn
on_disconnected_lem_example =
    on_disconnected_lem at_1000 residue both_connected both_connected-IsSound full_pool
      full_pool_alive near_conn refl refl (record full_pool { local_list = [] }) refl
      (λ e. omega arith)

on_disconnected_last_example :
    (w' : World) × (on_disconnected at_1000 residue near_conn near_connected ≡ some w')
    × (w'.manager.pool_list ≡ remove_if (λ q. q.id == 4) near_connected.manager.pool_list)
    × All (λ e. ¬ Owns e near_pool) w'.pool_bus
    × (w'.unavailable ≡ (
        if length w'.manager.pool_list == 0
        then near_connected.unavailable + 1
        else near_connected.unavailable))
unfolding new_conn Pool.add_conn Pool.del_conn size is_local
on_disconnected_last_example =
    on_disconnected_last at_1000 residue near_connected near_connected-IsSound near_pool
      near_pool_alive near_conn refl refl refl

Reach-IsSound_example : IsSound both_connected
Reach-IsSound_example = Reach-IsSound 100 both_connected-Reach

reports_never_fault_example :
    ((w' : World) × (on_connected at_1000 residue far_conn near_connected ≡ some w'))
    × ((w' : World) × (on_disconnected at_1000 residue far_conn near_connected ≡ some w'))
reports_never_fault_example = reports_never_fault 100 at_1000 residue far_conn near_connected-Reach

get_conns-pools_example : get_conns 1 both_connected ≡ (
  map (λ p. (Pool.get_conn p).0) both_connected.manager.pool_list,
  record both_connected {
    manager = record (both_connected.manager) {
      pool_list = map (λ p. (Pool.get_conn p).1) both_connected.manager.pool_list;
    };
  },
)
unfolding new_manager add_pool add_conn put_pool Pool.add_conn is_local new_conn
get_conns-pools_example = get_conns-pools both_connected

del_conn-All_example :
    All (λ p. All (λ c. c.info ≢ near) (conns p)) (del_conn near both_connected).manager.pool_list
    × All (λ i. i ≢ near) (del_conn near both_connected).manager.info_list
del_conn-All_example = del_conn-All near both_connected both_connected-IsSound

-- A second pool, for a manager that knows two descriptions and then serves a request.
abbrev second_pool : World
second_pool = (add_pool (λ n. 5000 + n) residue both_connected).1

add_pool_strands_example :
    (cs : List Conn) × (second_pool.started ≡ both_connected.started ++ cs)
    × (map (λ c. c.info) cs ≡ both_connected.manager.info_list)
    × All
        (λ c.
          on_connected at_1000 residue c (get_conn second_pool).1 ≡ some (get_conn second_pool).1)
        cs
unfolding new_manager add_pool add_conn put_pool Pool.add_conn new_conn is_local
add_pool_strands_example =
    add_pool_strands (λ n. 5000 + n) residue both_connected (get_conn second_pool).1 at_1000 residue
      (omega arith) (omega arith, tt) both_connected-IsSound (omega arith)
      (next here (serves second_pool))
