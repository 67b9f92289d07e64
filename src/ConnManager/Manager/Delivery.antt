-- ===== src/ConnManager/Manager/Delivery.antt =====
-- The reports of connections, `onConnected` and `onDisconnected`, in a sound state.
use mathlib.Core.Path.{subst}
use dbwrapper.Prelude.{
  ℕ, ◌+◌, ◌≡◌, ◌≢◌, refl, ap, ◌∙◌, inl, inr, List, [], ◌∷◌, ◌++◌, some, arith, ◌==◌, Option-cases,
  if◌then◌else◌, All, All-map, Any, remove_if, keep_if, length, length-append,
}
use dbwrapper.ConnManager.Info.{conn_inc, conn_dec, is_local}
use dbwrapper.ConnManager.Bus.{Entry, call}
use dbwrapper.ConnManager.Bus.Dispatch.{call-All}
use dbwrapper.ConnManager.Pool.{
  Pool, Conn, Residue, PoolHandler, on_conn_dec, on_conn_inc, conns, size,
}
use dbwrapper.ConnManager.Pool
use dbwrapper.ConnManager.Pool.Contents.{del_conn-wires}
use dbwrapper.ConnManager.Manager.{World, Manager, del_pool}
use dbwrapper.ConnManager.Manager.Reports.{
  check_pools, handle_pool_dec, pool_at, with_pool, handle_conn_dec, handle_conn_inc, tell_pool,
  on_connected, on_disconnected,
}
use dbwrapper.ConnManager.Manager.Wiring.{Hears, Owns}
use dbwrapper.ConnManager.Manager.Wiring.Removal.{destroy_all-owned}
use dbwrapper.ConnManager.Manager.Soundness.{IsSound}
use dbwrapper.ConnManager.Manager.Lookup.{
  pool_at-put_pool, pool_at-keep_if, remove_if-put_pool, pool_at-All, Any-pool_at,
}
use dbwrapper.ConnManager.Manager.Handling.{
  handle_conn_inc-own, handle_conn_inc-IsSound, handle_conn_dec-own, handle_conn_dec-IsSound,
}

check_pools-fields :
    (ps : List Pool) (w : World)
    → ((check_pools ps w).manager ≡ w.manager)
      × ((check_pools ps w).pool_bus ≡ w.pool_bus)
      × ((check_pools ps w).unavailable
          ≡ (if length ps == 0 then w.unavailable + 1 else w.unavailable))
unfolding check_pools
check_pools-fields [] w = (refl, refl, refl)
check_pools-fields (p ∷ ps) w = (refl, refl, ground arith)

-- No handler of a pool outlives its deletion.
del_pool-owned :
    (w : World) (p : Pool) (id : ℕ)
    → pool_at p.address w.manager.pool_list ≡ some p
    → p.id ≡ id
    → All (λ e. ¬ Owns e p) (del_pool id w).pool_bus
unfolding del_pool
del_pool-owned w p id found same =
    let test = λ (q : Pool). q.id == id in
    All-map
      (λ e gone.
        pool_at-keep_if (λ r. ¬ Owns e r) test p.address w.manager.pool_list p found (ground arith)
          gone)
      _ (destroy_all-owned (keep_if test w.manager.pool_list) w.pool_bus)

module _ (address : ℕ → ℕ) (old : Residue) where
  dispatched :
      (topic : List ℕ) (c : Conn) (id : ℕ) (w : World) (e : Entry PoolHandler) (p : Pool)
      → IsSound w
      → call topic id w.pool_bus ≡ some e
      → pool_at e.object w.manager.pool_list ≡ some p
      → (h : PoolHandler) → e.handler ≡ h
      → (w' : World) × (tell_pool address old topic c id w ≡ some w') × IsSound w'
  unfolding tell_pool
  dispatched topic c id w e p s called found on_conn_dec h = (
    handle_conn_dec address old p c w,
    rw (called, tell_pool, found, h),
    handle_conn_dec-IsSound address old w s e.object p found c,
  )
  dispatched topic c id w e p s called found on_conn_inc h = (
    handle_conn_inc address old p c w,
    rw (called, tell_pool, found, h),
    handle_conn_inc-IsSound address old w s e.object p found c,
  )

  -- Whatever a connection reports in a sound state, to whatever id: the handler that runs, if there
  -- is one, is that of a pool which is alive, and the state after it is sound.
  pub tell_pool-IsSound :
      (topic : List ℕ) (c : Conn) (id : ℕ) (w : World)
      → IsSound w
      → (w' : World) × (tell_pool address old topic c id w ≡ some w') × IsSound w'
  unfolding tell_pool
  tell_pool-IsSound topic c id w s = elim (Option-cases (call topic id w.pool_bus)) [
    | inl silent ↦ (w, rw (silent, tell_pool), s)
    | inr (e, called) ↦
        let ps = w.manager.pool_list in
        let own = call-All (λ x. Any (Owns x) ps) topic id w.pool_bus e called s.wired.owned in
        let (p, found) = Any-pool_at e ps own in
        dispatched topic c id w e p s called found e.handler refl
  ]

  module _ (w : World) (s : IsSound w) (p : Pool)
      (alive : pool_at p.address w.manager.pool_list ≡ some p) (c : Conn) where
    hears : Hears w.pool_bus p
    hears = pool_at-All (Hears w.pool_bus) p.address w.manager.pool_list p alive s.wired.hear

    pub on_connected-add_conn :
        c.conn_inc_id ≡ p.conn_inc_id
        → c.pool_index ≡ p.id
        → on_connected address old c w ≡ some (with_pool (Pool.add_conn p c) w)
    unfolding on_connected tell_pool
    on_connected-add_conn to own =
        let heard = ap (λ i. call conn_inc i w.pool_bus) to ∙ hears.0 in
        rw (heard, tell_pool, alive)
          (ap some (handle_conn_inc-own address old w s p.address p alive c own))

    -- In a sound state, the report of a new connection, sent to the id of a live pool and with the
    -- index of that pool, puts the connection at the back of the pool's list for its locality; the
    -- other list and all else stay as they are.
    pub on_connected_lem :
        c.conn_inc_id ≡ p.conn_inc_id
        → c.pool_index ≡ p.id
        → on_connected address old c w
          ≡ some (
              with_pool
                (record p {
                  local_list = if is_local c.info then p.local_list ++ c ∷ [] else p.local_list;
                  remote_list = if is_local c.info then p.remote_list else p.remote_list ++ c ∷ [];
                })
                w)
    unfolding Pool.add_conn
    on_connected_lem to own =
        let gains : Pool.add_conn p c ≡ record p {
          local_list = if is_local c.info then p.local_list ++ c ∷ [] else p.local_list;
          remote_list = if is_local c.info then p.remote_list else p.remote_list ++ c ∷ [];
        } =
          ground arith in
        on_connected-add_conn to own ∙ ap (λ q. some (with_pool q w)) gains

    disconnected :
        c.conn_dec_id ≡ p.conn_dec_id
        → c.pool_index ≡ p.id
        → on_disconnected address old c w
          ≡ some (
              if size (Pool.del_conn p c) == 0
              then handle_pool_dec p.id (with_pool (Pool.del_conn p c) w)
              else with_pool (Pool.del_conn p c) w)
    unfolding on_disconnected tell_pool
    disconnected to own =
        let heard = ap (λ i. call conn_dec i w.pool_bus) to ∙ hears.1 in
        rw (heard, tell_pool, alive)
          (ap some (handle_conn_dec-own address old w s p.address p alive c own))

    -- In a sound state, the report of a lost connection, sent to the id of a live pool and with the
    -- index of that pool, takes what stands at the address of the connection out of the pool's list for
    -- its locality, if the pool keeps another connection then; the other list and all else stay as
    -- they are.
    pub on_disconnected_lem :
        c.conn_dec_id ≡ p.conn_dec_id
        → c.pool_index ≡ p.id
        → (p' : Pool)
        → p' ≡ record p {
          local_list =
              if is_local c.info
              then remove_if (λ d. d.address == c.address) p.local_list
              else p.local_list;
          remote_list =
              if is_local c.info
              then p.remote_list
              else remove_if (λ d. d.address == c.address) p.remote_list;
        }
        → length (conns p') ≢ 0
        → on_disconnected address old c w ≡ some (with_pool p' w)
    unfolding Pool.del_conn size
    on_disconnected_lem to own p' same more =
        let loses : Pool.del_conn p c ≡ p' = rw same (ground arith) in
        let kept : size (Pool.del_conn p c) ≢ 0 =
          rw loses (λ e. more (length-append p'.local_list p'.remote_list ∙ e)) in
        ground (arith, disconnected to own) ∙ ap (λ q. some (with_pool q w)) loses

    -- When a connection of a live pool reports in a sound state, with the ids of the pool, that it
    -- is lost, and the pool keeps no other, the pool leaves the manager, none of its handlers stays
    -- on the bus, and the manager notes that no pool is left exactly when that is so.
    pub on_disconnected_last :
        c.conn_dec_id ≡ p.conn_dec_id
        → c.pool_index ≡ p.id
        → size (Pool.del_conn p c) ≡ 0
        → (w' : World) × (on_disconnected address old c w ≡ some w')
          × (w'.manager.pool_list ≡ remove_if (λ q. q.id == p.id) w.manager.pool_list)
          × All (λ e. ¬ Owns e p) w'.pool_bus
          × (w'.unavailable
              ≡ (if length w'.manager.pool_list == 0 then w.unavailable + 1 else w.unavailable))
    unfolding handle_pool_dec del_pool
    on_disconnected_last to own last =
        let p' = Pool.del_conn p c in
        let v = with_pool p' w in
        let v' = del_pool p.id v in
        let same = del_conn-wires p c in
        let at : p'.address ≡ p.address = ap (λ (q : Pool). q.address) same in
        let here : pool_at p'.address w.manager.pool_list ≡ some p = rw at alive in
        let gone =
          remove_if-put_pool p' w.manager.pool_list p p.id here refl
            (ap (λ (q : Pool). q.id) same) in
        let kept = pool_at-put_pool p' w.manager.pool_list p here in
        let (m, b, u) = check_pools-fields v'.manager.pool_list v' in
        let left : (check_pools v'.manager.pool_list v').manager.pool_list
            ≡ remove_if (λ q. q.id == p.id) w.manager.pool_list =
          ap (λ (x : Manager). x.pool_list) m ∙ gone in
        let owned =
          subst (λ q. All (λ e. ¬ Owns e q) v'.pool_bus) same
            (del_pool-owned v p' p.id kept (ap (λ (q : Pool). q.id) same)) in
        (
          check_pools v'.manager.pool_list v',
          ground (arith, disconnected to own),
          left,
          rw b owned,
          rw (ap (λ (x : Manager). x.pool_list) m) u,
        )
