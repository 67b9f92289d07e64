-- ===== src/ConnManager/Manager.antt =====
-- include/connManager/connManager.h: `connManager`, the two buses that it shares with its pools,
-- and the reports that its connections make.
-- There is one manager, and it alone holds the pools: a pointer that `get_pool` returned is dropped
-- before the next operation, so a pool that leaves `poolList` is destroyed there. A handler that
-- would run on a destroyed pool is a fault, `none`.
-- `connect` starts a connection; its report comes later, as a message on the bus of the pools.
-- `address` gives the addresses of the objects that an operation allocates: the pool's at 0, the
-- connections' after it.
pub mod Reports
pub mod Wiring
pub mod Soundness
pub mod Turns
pub mod Lookup
pub mod Handling
pub mod Delivery
pub mod History
pub mod Serving
pub mod Strands
pub mod LateId
use dbwrapper.Prelude.{
  ℕ, zero, suc, ◌+◌, Bool, true, false, ◌||◌, List, [], ◌∷◌, ◌++◌, map, Option, none, some, ◌==◌,
  if◌then◌else◌, remove_if, keep_if,
}
use dbwrapper.ConnManager.Info.{ConnInfo, equals, conn_inc, conn_dec, pool_inc, pool_dec}
use dbwrapper.ConnManager.Bus.{Entry, get_unique_id, register_handler}
use dbwrapper.ConnManager.Pool.{
  Pool, Conn, Residue, PoolHandler, on_conn_dec, on_conn_inc, new_pool, destroy, new_conn, size,
}
use dbwrapper.ConnManager.Pool

-- The two lambdas that the manager registers.
pub data ManagerHandler : Type 0 where
  on_pool_inc on_pool_dec : ManagerHandler

pub record Manager : Type 0 where
  pub address : ℕ
  pub info_list : List ConnInfo
  pub pool_list : List Pool
  pub pool_inc_id : ℕ
  pub pool_dec_id : ℕ

pub record World : Type 0 where
  -- `id_center`
  pub counter : ℕ
  -- `message_bus<connPool<DBConn>>` and `message_bus<connManager<DBConn, void>>`
  pub pool_bus : List (Entry PoolHandler)
  pub manager_bus : List (Entry ManagerHandler)
  pub manager : Manager
  -- The connections on which `connect` was called, oldest first.
  pub started : List Conn
  -- How often `on_unavaliable` was called.
  pub unavailable : ℕ

-- `connManager()`, before anything else is registered.
unfoldable pub new_manager : ℕ → World
unfolding register_handler
new_manager address =
    let (inc_id, counter₁, bus₁) = register_handler pool_inc address on_pool_inc 0 [] in
    let (dec_id, counter₂, bus₂) = register_handler pool_dec address on_pool_dec counter₁ bus₁ in
    record {
      counter = counter₂;
      pool_bus = [];
      manager_bus = bus₂;
      manager = record {
        address = address;
        info_list = [];
        pool_list = [];
        pool_inc_id = inc_id;
        pool_dec_id = dec_id;
      };
      started = [];
      unavailable = 0;
    }

-- `pool->add_conn(p_info)` for each description: the connections that the loop starts.
unfoldable pub new_conns : Pool → (ℕ → ℕ) → ℕ → List ConnInfo → List Conn
new_conns p address i [] = []
new_conns p address i (info ∷ infos) =
    new_conn p (address i) info ∷ new_conns p address (i + 1) infos

-- `add_pool`: the id and the state. The connections are made before the pool has its id.
unfoldable pub add_pool : (ℕ → ℕ) → Residue → World → ℕ × World
unfolding new_pool
add_pool address old w =
    let (blank, counter₁, bus) = new_pool (address 0) old w.counter w.pool_bus in
    let (id, counter₂) = get_unique_id counter₁ in
    let pool : Pool = record blank {
      id = id;
      pool_inc_id = w.manager.pool_inc_id;
      pool_dec_id = w.manager.pool_dec_id;
    } in
    (
      id,
      record w {
        counter = counter₂;
        pool_bus = bus;
        manager = record (w.manager) { pool_list = w.manager.pool_list ++ pool ∷ [] };
        started = w.started ++ new_conns blank address 1 w.manager.info_list;
      },
    )

-- The destructors of the pools that leave the list.
unfoldable pub destroy_all : List Pool → List (Entry PoolHandler) → List (Entry PoolHandler)
destroy_all [] bus = bus
destroy_all (p ∷ ps) bus = destroy_all ps (destroy p bus)

-- `del_pool`
unfoldable pub del_pool : ℕ → World → World
unfolding destroy_all
del_pool id w = record w {
  pool_bus = destroy_all (keep_if (λ p. p.id == id) w.manager.pool_list) w.pool_bus;
  manager = record (w.manager) { pool_list = remove_if (λ p. p.id == id) w.manager.pool_list };
}

-- `get_conn`: the front pool goes to the back of the list, and serves one of its connections.
unfoldable pub get_conn : World → Option Conn × World
get_conn w = elim w.manager.pool_list [
  | [] ↦ (none, w)
  | p ∷ ps ↦
      let (c, p') = Pool.get_conn p in
      (c, record w { manager = record (w.manager) { pool_list = ps ++ p' ∷ [] } })
]

-- The loop of `add_conn`: each pool starts a connection.
unfoldable pub start_conns : List Pool → (ℕ → ℕ) → ℕ → ConnInfo → List Conn
start_conns [] address i info = []
start_conns (p ∷ ps) address i info =
    new_conn p (address i) info ∷ start_conns ps address (i + 1) info

-- `add_conn(connInfo)`
unfoldable pub add_conn : (ℕ → ℕ) → ConnInfo → World → World
unfolding start_conns
add_conn address info w = record w {
  manager = record (w.manager) { info_list = w.manager.info_list ++ info ∷ [] };
  started = w.started ++ start_conns w.manager.pool_list address 0 info;
}

-- `del_conn(connInfo)`
unfoldable pub del_conn : ConnInfo → World → World
del_conn info w = record w {
  manager = record (w.manager) {
    info_list = remove_if (λ i. equals i info) w.manager.info_list;
    pool_list = map (λ p. Pool.del_conn_info p info) w.manager.pool_list;
  };
}
