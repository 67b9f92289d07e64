-- ===== src/ConnManager/Manager/Handling.antt =====
-- What the handlers of the pools and of the manager do in a sound state.
use dbwrapper.Prelude.{
  ℕ, ◌≡◌, ◌≢◌, ap, ◌∙◌, true, inl, inr, List, [], ◌∷◌, some, arith, ◌==◌, Bool-cases, if◌then◌else◌,
}
use dbwrapper.ConnManager.Info.{pool_inc, pool_dec}
use dbwrapper.ConnManager.Pool.{Pool, Conn, Residue, PoolHandler, on_conn_dec, on_conn_inc, size}
use dbwrapper.ConnManager.Pool
use dbwrapper.ConnManager.Pool.Contents.{wires, add_conn-wires, del_conn-wires}
use dbwrapper.ConnManager.Manager.{World, del_pool}
use dbwrapper.ConnManager.Manager.Reports.{
  has_pool, check_pools, handle_pool_inc, handle_pool_dec, tell_manager, pool_at, put_pool,
  with_pool, handle_conn_dec, handle_conn_inc,
}
use dbwrapper.ConnManager.Manager.Soundness.{
  IsSound, IsLinked, IsOrderly, pools-IsSound, del_pool-IsSound, add_conn-IsOrderly,
  del_conn-IsOrderly,
}
use native.Mathlib.Decide.{ℕ_discrete}
use dbwrapper.ConnManager.Manager.Lookup.{
  pool_at-All, pool_at-address, pool_at-has_pool, put_pool-wires, put_pool-All,
}

-- A pool that stands in the list is replaced by one that differs in its connections only.
with_pool-IsSound :
    (w : World) (p' p : Pool)
    → pool_at p'.address w.manager.pool_list ≡ some p
    → wires p' ≡ wires p
    → IsOrderly p'
    → IsSound w
    → IsSound (with_pool p' w)
with_pool-IsSound w p' p e same o s =
    pools-IsSound w (put_pool p' w.manager.pool_list)
      (put_pool-wires p' w.manager.pool_list p e same)
      (put_pool-All IsOrderly p' w.manager.pool_list o s.orderly) s

check_pools-IsSound : (ps : List Pool) (w : World) → IsSound w → IsSound (check_pools ps w)
unfolding check_pools
check_pools-IsSound [] w s = record {
  wired = s.wired;
  hears_inc = s.hears_inc;
  hears_dec = s.hears_dec;
  linked = s.linked;
  orderly = s.orderly;
}
check_pools-IsSound (p ∷ ps) w s = s

pub handle_pool_dec-IsSound : (id : ℕ) (w : World) → IsSound w → IsSound (handle_pool_dec id w)
unfolding handle_pool_dec
handle_pool_dec-IsSound id w s = check_pools-IsSound _ (del_pool id w) (del_pool-IsSound id w s)

module _ (address : ℕ → ℕ) (old : Residue) where
  -- POOL_INC from a pool that is in the list changes nothing.
  tell_manager-pool_inc :
      (w : World) (p : Pool)
      → IsSound w
      → IsLinked w.manager p
      → has_pool p.id w.manager.pool_list ≡ true
      → tell_manager address old pool_inc p p.pool_inc_id w ≡ w
  unfolding tell_manager handle_pool_inc
  tell_manager-pool_inc w p s l e = rw (l.0, s.hears_inc, tell_manager, e)

  tell_manager-pool_dec :
      (w : World) (p : Pool)
      → IsSound w
      → IsLinked w.manager p
      → tell_manager address old pool_dec p p.pool_dec_id w ≡ handle_pool_dec p.id w
  unfolding tell_manager
  tell_manager-pool_dec w p s l = rw (l.1, s.hears_dec, tell_manager)

  module _ (w : World) (s : IsSound w) (a : ℕ) (p : Pool)
      (found : pool_at a w.manager.pool_list ≡ some p) (c : Conn) where
    linked : IsLinked w.manager p
    linked = pool_at-All (IsLinked w.manager) a w.manager.pool_list p found s.linked

    orderly : IsOrderly p
    orderly = pool_at-All IsOrderly a w.manager.pool_list p found s.orderly

    pub kept : (p' : Pool) → wires p' ≡ wires p → IsOrderly p' → IsSound (with_pool p' w)
    kept p' same o =
        let here =
          ap (λ (q : Pool). q.address) same ∙ pool_at-address a w.manager.pool_list p found in
        with_pool-IsSound w p' p (rw here found) same o s

    pub handle_conn_inc-own :
        c.pool_index ≡ p.id → handle_conn_inc address old p c w ≡ with_pool (Pool.add_conn p c) w
    unfolding handle_conn_inc
    handle_conn_inc-own own =
        ground (
          arith,
          tell_manager-pool_inc w p s linked (pool_at-has_pool a w.manager.pool_list p found),
        )

    pub handle_conn_inc-other : c.pool_index ≢ p.id → handle_conn_inc address old p c w ≡ w
    unfolding handle_conn_inc
    handle_conn_inc-other other = ground arith

    pub handle_conn_dec-other : c.pool_index ≢ p.id → handle_conn_dec address old p c w ≡ w
    unfolding handle_conn_dec
    handle_conn_dec-other other = ground arith

    pub handle_conn_dec-own :
        c.pool_index ≡ p.id
        → handle_conn_dec address old p c w ≡ (
            let p' = Pool.del_conn p c in
            if size p' == 0 then handle_pool_dec p.id (with_pool p' w) else with_pool p' w)
    unfolding handle_conn_dec
    handle_conn_dec-own own =
        let p' = Pool.del_conn p c in
        let same = del_conn-wires p c in
        let without_conn = kept p' same (del_conn-IsOrderly p orderly c) in
        let relinked : IsLinked w.manager p' = (
          ap (λ (q : Pool). q.pool_inc_id) same ∙ linked.0,
          ap (λ (q : Pool). q.pool_dec_id) same ∙ linked.1,
        ) in
        ground (
          arith,
          tell_manager-pool_dec (with_pool p' w) p' without_conn relinked,
          ap (λ (q : Pool). q.id) same,
        )

    pub handle_conn_inc-IsSound : IsSound (handle_conn_inc address old p c w)
    handle_conn_inc-IsSound = elim (ℕ_discrete c.pool_index p.id) [
      | yes own ↦
          rw (handle_conn_inc-own own)
            (kept (Pool.add_conn p c) (add_conn-wires p c) (add_conn-IsOrderly p orderly c own))
      | no other ↦ rw (handle_conn_inc-other other) s
    ]

    pub handle_conn_dec-IsSound : IsSound (handle_conn_dec address old p c w)
    handle_conn_dec-IsSound =
        let p' = Pool.del_conn p c in
        let still = kept p' (del_conn-wires p c) (del_conn-IsOrderly p orderly c) in
        elim (ℕ_discrete c.pool_index p.id) [
          | yes own ↦ elim (Bool-cases (size p' == 0)) [
            | inl last ↦
                rw (handle_conn_dec-own own, last)
                  (handle_pool_dec-IsSound p.id (with_pool p' w) still)
            | inr more ↦ rw (handle_conn_dec-own own, more) still
          ]
          | no other ↦ rw (handle_conn_dec-other other) s
        ]
