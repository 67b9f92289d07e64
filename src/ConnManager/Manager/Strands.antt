-- ===== src/ConnManager/Manager/Strands.antt =====
-- What stays true of the pool that has an id on the bus, over all histories: its own id.
use mathlib.Core.Path.{subst}
use dbwrapper.Prelude.{
  ℕ, ◌+◌, ◌^◌, ◌<◌, ◌≡◌, ◌≢◌, refl, sym, inl, inr, List, [], ◌∷◌, some, arith, ◌==◌, Bool-cases,
  Option-cases, All, All-append, All-map, All-remove_if, All-to_map, Any,
}
use native.Mathlib.Decide.{ℕ_discrete}
use dbwrapper.ConnManager.Info.{ConnInfo}
use dbwrapper.ConnManager.Bus.{Entry, call}
use dbwrapper.ConnManager.Bus.Dispatch.{call-All}
use dbwrapper.ConnManager.Pool.{Pool, Conn, Residue, PoolHandler, on_conn_dec, on_conn_inc, size}
use dbwrapper.ConnManager.Pool
use dbwrapper.ConnManager.Pool.Contents.{
  wires, add_conn-wires, del_conn-wires, del_conn_info-wires, get_conn-wires,
}
use dbwrapper.ConnManager.Manager.{World, add_pool, del_pool, get_conn, add_conn, del_conn}
use dbwrapper.ConnManager.Manager.Reports.{
  check_pools, handle_pool_dec, pool_at, with_pool, handle_conn_dec, handle_conn_inc, tell_pool,
}
use dbwrapper.ConnManager.Manager.Wiring.{Owns}
use dbwrapper.ConnManager.Manager.Soundness.{IsSound}
use dbwrapper.ConnManager.Manager.Lookup.{pool_at-All, put_pool-All, Any-pool_at}
use dbwrapper.ConnManager.Manager.Handling.{
  handle_conn_inc-own, handle_conn_inc-other, handle_conn_dec-own, handle_conn_dec-other,
}
use dbwrapper.ConnManager.Manager.History.{
  Step, adds_pool, deletes_pool, serves, gains, drops, reports, Reach, here, next, Step-IsSound,
}

-- A pool that is reported to under `i`, if it is, has another id than `k`.
abbrev pub IsOther : ℕ → ℕ → Pool → Type 0
IsOther i k q = q.conn_inc_id ≡ i → q.id ≢ k

abbrev pub Strands : ℕ → ℕ → World → Type 0
Strands i k w = (i < w.counter) × All (IsOther i k) w.manager.pool_list

module _ (i k : ℕ) where
  rewired : (p p' : Pool) → wires p' ≡ wires p → IsOther i k p → IsOther i k p'
  rewired p p' same o = subst (IsOther i k) (sym same) o

  add_pool-Strands :
      (address : ℕ → ℕ) (old : Residue) (w : World)
      → w.counter + 3 < 2 ^ 32
      → Strands i k w
      → Strands i k (add_pool address old w).1
  unfolding add_pool
  add_pool-Strands address old w fits (lt, o) =
      (omega arith, All-append _ w.manager.pool_list (_ ∷ []) o ((λ e. absurd (omega arith)), tt))

  del_pool-Strands : (id : ℕ) (w : World) → Strands i k w → Strands i k (del_pool id w)
  unfolding del_pool
  del_pool-Strands id w (lt, o) = (lt, All-remove_if _ _ w.manager.pool_list o)

  get_conn-Strands :
      (w : World) (ps : List Pool)
      → w.manager.pool_list ≡ ps
      → Strands i k w
      → Strands i k (get_conn w).1
  unfolding get_conn
  get_conn-Strands w [] e s = rw (e, get_conn) s
  get_conn-Strands w (p ∷ ps) e (lt, o) =
      let o' = subst (All (IsOther i k)) e o in
      rw (e, get_conn)
        (
          lt,
          All-append _ ps (_ ∷ []) o'.1 (rewired p (Pool.get_conn p).1 (get_conn-wires p) o'.0, tt),
        )

  del_conn-Strands : (info : ConnInfo) (w : World) → Strands i k w → Strands i k (del_conn info w)
  unfolding del_conn
  del_conn-Strands info w (lt, o) = (
    lt,
    All-to_map (λ p. Pool.del_conn_info p info) (IsOther i k) w.manager.pool_list
        (All-map (λ p h. rewired p (Pool.del_conn_info p info) (del_conn_info-wires p info) h)
          w.manager.pool_list o),
  )

  with_pool-Strands :
      (w : World) (p' p : Pool) (a : ℕ)
      → pool_at a w.manager.pool_list ≡ some p
      → wires p' ≡ wires p
      → Strands i k w
      → Strands i k (with_pool p' w)
  with_pool-Strands w p' p a found same (lt, o) = (
    lt,
    put_pool-All (IsOther i k) p' w.manager.pool_list
        (rewired p p' same (pool_at-All (IsOther i k) a w.manager.pool_list p found o)) o,
  )

  check_pools-Strands :
      (ps : List Pool) (w : World) → Strands i k w → Strands i k (check_pools ps w)
  unfolding check_pools
  check_pools-Strands [] w s = s
  check_pools-Strands (p ∷ ps) w s = s

  module _ (address : ℕ → ℕ) (old : Residue) (w : World) (s : IsSound w) (a : ℕ) (p : Pool)
      (found : pool_at a w.manager.pool_list ≡ some p) (c : Conn) (t : Strands i k w) where
    handle_conn_inc-Strands : Strands i k (handle_conn_inc address old p c w)
    handle_conn_inc-Strands = elim (ℕ_discrete c.pool_index p.id) [
      | yes own ↦
          rw (handle_conn_inc-own address old w s a p found c own)
            (with_pool-Strands w (Pool.add_conn p c) p a found (add_conn-wires p c) t)
      | no other ↦ rw (handle_conn_inc-other address old w s a p found c other) t
    ]

    handle_conn_dec-Strands : Strands i k (handle_conn_dec address old p c w)
    unfolding handle_pool_dec
    handle_conn_dec-Strands =
        let p' = Pool.del_conn p c in
        let still = with_pool-Strands w p' p a found (del_conn-wires p c) t in
        let dropped = del_pool-Strands p.id (with_pool p' w) still in
        elim (ℕ_discrete c.pool_index p.id) [
          | yes own ↦ elim (Bool-cases (size p' == 0)) [
            | inl last ↦
                rw (handle_conn_dec-own address old w s a p found c own, last)
                  (check_pools-Strands _ (del_pool p.id (with_pool p' w)) dropped)
            | inr more ↦ rw (handle_conn_dec-own address old w s a p found c own, more) still
          ]
          | no other ↦ rw (handle_conn_dec-other address old w s a p found c other) t
        ]

  dispatched :
      (address : ℕ → ℕ) (old : Residue) (topic : List ℕ) (c : Conn) (id : ℕ) (w : World)
      (e : Entry PoolHandler) (p : Pool)
      → IsSound w
      → Strands i k w
      → call topic id w.pool_bus ≡ some e
      → pool_at e.object w.manager.pool_list ≡ some p
      → (h : PoolHandler) → e.handler ≡ h
      → (v : World) × (tell_pool address old topic c id w ≡ some v) × Strands i k v
  unfolding tell_pool
  dispatched address old topic c id w e p s t called found on_conn_dec h = (
    handle_conn_dec address old p c w,
    rw (called, tell_pool, found, h),
    handle_conn_dec-Strands address old w s e.object p found c t,
  )
  dispatched address old topic c id w e p s t called found on_conn_inc h = (
    handle_conn_inc address old p c w,
    rw (called, tell_pool, found, h),
    handle_conn_inc-Strands address old w s e.object p found c t,
  )

  -- The pool that a message reaches is alive in a sound state.
  alive :
      (topic : List ℕ) (id : ℕ) (w : World) (e : Entry PoolHandler)
      → IsSound w
      → call topic id w.pool_bus ≡ some e
      → Any (Owns e) w.manager.pool_list
  alive topic id w e s called =
      call-All (λ x. Any (Owns x) w.manager.pool_list) topic id w.pool_bus e called s.wired.owned

  tell_pool-Strands :
      (address : ℕ → ℕ) (old : Residue) (topic : List ℕ) (c : Conn) (id : ℕ) (w : World)
      → IsSound w
      → Strands i k w
      → (v : World) × (tell_pool address old topic c id w ≡ some v) × Strands i k v
  unfolding tell_pool
  tell_pool-Strands address old topic c id w s t = elim (Option-cases (call topic id w.pool_bus)) [
    | inl silent ↦ (w, rw (silent, tell_pool), t)
    | inr (e, called) ↦
        let (p, found) = Any-pool_at e w.manager.pool_list (alive topic id w e s called) in
        dispatched address old topic c id w e p s t called found e.handler refl
  ]

  Step-Strands : {w w' : World} → Step w w' → IsSound w → Strands i k w → Strands i k w'
  unfolding add_conn
  Step-Strands (adds_pool address old w fits fresh) s t = add_pool-Strands address old w fits t
  Step-Strands (deletes_pool id w) s t = del_pool-Strands id w t
  Step-Strands (serves w) s t = get_conn-Strands w w.manager.pool_list refl t
  Step-Strands (gains address info w) s t = t
  Step-Strands (drops info w) s t = del_conn-Strands info w t
  Step-Strands (reports address old topic c id {w = w} {w' = w'} e) s t =
      let (v, done, u) = tell_pool-Strands address old topic c id w s t in
      let same : v ≡ w' = cc (done, e) in subst (Strands i k) same u

  pub Reach-Strands :
      {w w' : World} → Reach w w' → IsSound w → Strands i k w → IsSound w' × Strands i k w'
  Reach-Strands here s t = (s, t)
  Reach-Strands (next r st) s t =
      let (s', t') = Reach-Strands r s t in (Step-IsSound st s', Step-Strands st s' t')
