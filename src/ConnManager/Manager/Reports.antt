-- ===== src/ConnManager/Manager/Reports.antt =====
-- include/connManager/connManager.h: the messages between connections, pools and the manager: the
-- lambdas that the constructors of `connPool` and `connManager` register, and the reports of a
-- connection (the template in include/connManager/connInterface.h).
-- `address` and `old` are what a `new` in a handler gets, as for `add_pool`.
use dbwrapper.Prelude.{
  ℕ, ◌+◌, Bool, false, ◌||◌, List, [], ◌∷◌, Option, none, some, ◌==◌, if◌then◌else◌,
}
use dbwrapper.ConnManager.Info.{conn_inc, conn_dec, pool_inc, pool_dec}
use dbwrapper.ConnManager.Bus.{call}
use dbwrapper.ConnManager.Pool.{Pool, Conn, Residue, PoolHandler, on_conn_dec, on_conn_inc, size}
use dbwrapper.ConnManager.Pool
use dbwrapper.ConnManager.Manager.{World, on_pool_inc, on_pool_dec, add_pool, del_pool}

-- Whether a pool with the id is in the list.
unfoldable pub has_pool : ℕ → List Pool → Bool
has_pool id [] = false
has_pool id (p ∷ ps) = p.id == id || has_pool id ps

-- The handler of POOL_INC, for a message from the pool with the id.
unfoldable pub handle_pool_inc : (ℕ → ℕ) → Residue → ℕ → World → World
handle_pool_inc address old id w =
    if has_pool id w.manager.pool_list then w else (add_pool address old w).1

-- `if (!poolList.size()) on_unavaliable();`
unfoldable pub check_pools : List Pool → World → World
check_pools [] w = record w { unavailable = w.unavailable + 1 }
check_pools (_ ∷ _) w = w

-- The handler of POOL_DEC.
unfoldable pub handle_pool_dec : ℕ → World → World
handle_pool_dec id w = let w' = del_pool id w in check_pools w'.manager.pool_list w'

-- `call` on the bus of the manager, with a pool as the message.
unfoldable pub tell_manager : (ℕ → ℕ) → Residue → List ℕ → Pool → ℕ → World → World
unfolding handle_pool_inc handle_pool_dec
tell_manager address old topic p id w = elim (call topic id w.manager_bus) [
  | none ↦ w
  | some e ↦ elim e.handler [
    | on_pool_inc ↦ handle_pool_inc address old p.id w
    | on_pool_dec ↦ handle_pool_dec p.id w
  ]
]

-- The pool at an address, among those that are alive.
unfoldable pub pool_at : ℕ → List Pool → Option Pool
pool_at address [] = none
pool_at address (p ∷ ps) = if p.address == address then some p else pool_at address ps

-- The pool at an address is changed in place.
unfoldable pub put_pool : Pool → List Pool → List Pool
put_pool p' [] = []
put_pool p' (p ∷ ps) = if p.address == p'.address then p' ∷ ps else p ∷ put_pool p' ps

abbrev pub with_pool : Pool → World → World
with_pool p w = record w {
  manager = record (w.manager) { pool_list = put_pool p w.manager.pool_list };
}

-- The handler of CONN_DEC on the pool `p`.
unfoldable pub handle_conn_dec : (ℕ → ℕ) → Residue → Pool → Conn → World → World
unfolding tell_manager put_pool
handle_conn_dec address old p c w =
    if c.pool_index == p.id
    then (let p' = Pool.del_conn p c in
        let w' = with_pool p' w in
        if size p' == 0 then tell_manager address old pool_dec p' p'.pool_dec_id w' else w')
    else w

-- The handler of CONN_INC on the pool `p`. The pool is looked up again before the connection is
-- added, since the manager may have changed its list.
unfoldable pub handle_conn_inc : (ℕ → ℕ) → Residue → Pool → Conn → World → World
unfolding tell_manager put_pool
handle_conn_inc address old p c w =
    if c.pool_index == p.id
    then (let w' = if size p == 0 then tell_manager address old pool_inc p p.pool_inc_id w else w in
        with_pool (Pool.add_conn p c) w')
    else w

-- `call` on the bus of the pools, with a connection as the message.
unfoldable pub tell_pool : (ℕ → ℕ) → Residue → List ℕ → Conn → ℕ → World → Option World
unfolding pool_at handle_conn_dec handle_conn_inc
tell_pool address old topic c id w = elim (call topic id w.pool_bus) [
  | none ↦ some w
  | some e ↦ elim (pool_at e.object w.manager.pool_list) [
    | none ↦ none
    | some p ↦ elim e.handler [
      | on_conn_dec ↦ some (handle_conn_dec address old p c w)
      | on_conn_inc ↦ some (handle_conn_inc address old p c w)
    ]
  ]
]

-- `onConnected` and `onDisconnected` of a connection.
unfoldable pub on_connected : (ℕ → ℕ) → Residue → Conn → World → Option World
unfolding tell_pool
on_connected address old c w = tell_pool address old conn_inc c c.conn_inc_id w

unfoldable pub on_disconnected : (ℕ → ℕ) → Residue → Conn → World → Option World
unfolding tell_pool
on_disconnected address old c w = tell_pool address old conn_dec c c.conn_dec_id w
