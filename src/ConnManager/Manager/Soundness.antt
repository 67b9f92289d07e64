-- ===== src/ConnManager/Manager/Soundness.antt =====
-- The invariant of the manager with its pools and its buses, and that the operations keep it.
use mathlib.Core.Path.{subst}
use dbwrapper.Prelude.{
  ℕ, ◌+◌, ◌%◌, ◌^◌, ◌<◌, ◌≡◌, ◌≢◌, refl, ap, ◌∙◌, List, [], ◌∷◌, ◌++◌, map, some, arith, ◌==◌, All,
  All-append, All-map, All-remove_if, All-of_map, All-to_map,
}
use dbwrapper.ConnManager.Info.{ConnInfo, pool_inc, pool_dec}
use dbwrapper.ConnManager.Bus.{Entry, register_handler_as, call}
use dbwrapper.ConnManager.Bus.Dispatch.{call_here, call_later}
use dbwrapper.ConnManager.Pool.{Pool, Conn, Residue, PoolHandler, new_pool, conns}
use dbwrapper.ConnManager.Pool
use dbwrapper.ConnManager.Pool.Partition.{
  IsPartitioned, add_conn-IsPartitioned, del_conn-IsPartitioned, del_conn_info-IsPartitioned,
  get_conn-IsPartitioned,
}
use dbwrapper.ConnManager.Pool.Contents.{
  wires, add_conn-wires, del_conn-wires, del_conn_info-wires, get_conn-wires, add_conn-conns,
  del_conn-conns, del_conn_info-conns, get_conn-conns,
}
use dbwrapper.ConnManager.Manager.{
  World, Manager, ManagerHandler, on_pool_inc, on_pool_dec, new_manager, add_pool, del_pool,
  add_conn, del_conn,
}
use dbwrapper.ConnManager.Manager.Wiring.{IsWired, inc_entry, dec_entry, wires-IsWired, add-IsWired}
use dbwrapper.ConnManager.Manager.Wiring.Removal.{remove-IsWired}

abbrev pub manager_entry : List ℕ → ManagerHandler → ℕ → ℕ → Entry ManagerHandler
manager_entry topic h address id = record { name = topic; handler = h; object = address; id = id }

abbrev pub IsLinked : Manager → Pool → Type 0
IsLinked m p = (p.pool_inc_id ≡ m.pool_inc_id) × (p.pool_dec_id ≡ m.pool_dec_id)

-- A pool holds local connections in one list and the others in the other, all with its own id.
abbrev pub IsOrderly : Pool → Type 0
IsOrderly p = IsPartitioned p × All (λ c. c.pool_index ≡ p.id) (conns p)

pub record IsSound (w : World) : Type 0 where
  pub wired : IsWired w.counter w.pool_bus w.manager.pool_list
  pub hears_inc :
      call pool_inc w.manager.pool_inc_id w.manager_bus
      ≡ some (manager_entry pool_inc on_pool_inc w.manager.address w.manager.pool_inc_id)
  pub hears_dec :
      call pool_dec w.manager.pool_dec_id w.manager_bus
      ≡ some (manager_entry pool_dec on_pool_dec w.manager.address w.manager.pool_dec_id)
  pub linked : All (IsLinked w.manager) w.manager.pool_list
  pub orderly : All IsOrderly w.manager.pool_list

pub new_manager-IsSound : (address : ℕ) → IsSound (new_manager address)
unfolding new_manager register_handler_as
new_manager-IsSound address = record {
  wired = record {
    unique = tt;
    below = tt;
    addresses = tt;
    ids = tt;
    ids_below = tt;
    hear = tt;
    owned = tt;
  };
  hears_inc =
      call_later pool_inc 0 (manager_entry pool_dec on_pool_dec address 1) _ (omega arith)
      ∙ call_here (manager_entry pool_inc on_pool_inc address 0) [];
  hears_dec = call_here (manager_entry pool_dec on_pool_dec address 1) _;
  linked = tt;
  orderly = tt;
}

pub add_pool-IsSound :
    (address : ℕ → ℕ) (old : Residue) (w : World)
    → w.counter + 3 < 2 ^ 32
    → All (λ q. q.address ≢ address 0) w.manager.pool_list
    → IsSound w
    → IsSound (add_pool address old w).1
unfolding add_pool register_handler_as
add_pool-IsSound address old w fits fresh s =
    let p : Pool = record {
      address = address 0;
      id = ((w.counter + 1) % 2 ^ 32 + 1) % 2 ^ 32;
      conn_inc_id = (w.counter + 1) % 2 ^ 32;
      conn_dec_id = w.counter;
      pool_inc_id = w.manager.pool_inc_id;
      pool_dec_id = w.manager.pool_dec_id;
      local_list = [];
      remote_list = [];
    } in
    let ps = w.manager.pool_list in
    record {
      wired =
          subst (λ n. IsWired n (inc_entry p ∷ dec_entry p ∷ w.pool_bus) (ps ++ p ∷ []))
            (omega arith)
            (add-IsWired p w.counter w.pool_bus ps refl (omega arith) (omega arith) fresh s.wired);
      hears_inc = s.hears_inc;
      hears_dec = s.hears_dec;
      linked = All-append _ ps (p ∷ []) s.linked ((refl, refl), tt);
      orderly =
          All-append _ ps (p ∷ []) s.orderly
            ((record { local_only = tt; remote_only = tt }, tt), tt);
    }

pub del_pool-IsSound : (id : ℕ) (w : World) → IsSound w → IsSound (del_pool id w)
unfolding del_pool
del_pool-IsSound id w s = record {
  wired = remove-IsWired (λ p. p.id == id) w.counter w.pool_bus w.manager.pool_list s.wired;
  hears_inc = s.hears_inc;
  hears_dec = s.hears_dec;
  linked = All-remove_if _ _ w.manager.pool_list s.linked;
  orderly = All-remove_if _ _ w.manager.pool_list s.orderly;
}

-- The pools are replaced by others with the same wires.
pub pools-IsSound :
    (w : World) (qs : List Pool)
    → map wires w.manager.pool_list ≡ map wires qs
    → All IsOrderly qs
    → IsSound w
    → IsSound (record w { manager = record (w.manager) { pool_list = qs } })
pools-IsSound w qs e orderly s = record {
  wired = wires-IsWired w.counter w.pool_bus w.manager.pool_list qs e s.wired;
  hears_inc = s.hears_inc;
  hears_dec = s.hears_dec;
  linked =
      All-of_map wires _ qs
        (subst (All (IsLinked w.manager)) e (All-to_map wires _ w.manager.pool_list s.linked));
  orderly = orderly;
}

module _ (p : Pool) (o : IsOrderly p) where
  pub del_conn-IsOrderly : (c : Conn) → IsOrderly (Pool.del_conn p c)
  del_conn-IsOrderly c = (
    del_conn-IsPartitioned p c o.0,
    rw (ap (λ (q : Pool). q.id) (del_conn-wires p c)) (del_conn-conns _ p o.1 c),
  )

  pub add_conn-IsOrderly : (c : Conn) → c.pool_index ≡ p.id → IsOrderly (Pool.add_conn p c)
  add_conn-IsOrderly c own = (
    add_conn-IsPartitioned p c o.0,
    rw (ap (λ (q : Pool). q.id) (add_conn-wires p c)) (add_conn-conns _ p o.1 c own),
  )

  pub del_conn_info-IsOrderly : (info : ConnInfo) → IsOrderly (Pool.del_conn_info p info)
  del_conn_info-IsOrderly info = (
    del_conn_info-IsPartitioned p info o.0,
    rw (ap (λ (q : Pool). q.id) (del_conn_info-wires p info)) (del_conn_info-conns _ p o.1 info),
  )

  pub get_conn-IsOrderly : IsOrderly (Pool.get_conn p).1
  get_conn-IsOrderly = (
    get_conn-IsPartitioned p o.0,
    rw (ap (λ (q : Pool). q.id) (get_conn-wires p)) (get_conn-conns _ p o.1),
  )

-- A removed description leaves the pools where they are.
del_conn_info-map :
    (ps : List Pool) (info : ConnInfo)
    → map wires ps ≡ map wires (map (λ p. Pool.del_conn_info p info) ps)
del_conn_info-map [] info = refl
del_conn_info-map (p ∷ ps) info = rw (del_conn_info-wires p info, ← del_conn_info-map ps info)

pub del_conn-IsSound : (info : ConnInfo) (w : World) → IsSound w → IsSound (del_conn info w)
unfolding del_conn
del_conn-IsSound info w s =
    let t =
      pools-IsSound w (map (λ p. Pool.del_conn_info p info) w.manager.pool_list)
        (del_conn_info-map w.manager.pool_list info)
        (All-to_map (λ p. Pool.del_conn_info p info) IsOrderly w.manager.pool_list
          (All-map (λ p o. del_conn_info-IsOrderly p o info) w.manager.pool_list s.orderly))
        s in
    record {
      wired = t.wired;
      hears_inc = t.hears_inc;
      hears_dec = t.hears_dec;
      linked = t.linked;
      orderly = t.orderly;
    }

pub add_conn-IsSound :
    (address : ℕ → ℕ) (info : ConnInfo) (w : World) → IsSound w → IsSound (add_conn address info w)
unfolding add_conn
add_conn-IsSound address info w s = record {
  wired = s.wired;
  hears_inc = s.hears_inc;
  hears_dec = s.hears_dec;
  linked = s.linked;
  orderly = s.orderly;
}
