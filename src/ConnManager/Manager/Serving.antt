-- ===== src/ConnManager/Manager/Serving.antt =====
-- What the callers of the manager get: connections in turn, and pools without a connection that was
-- taken back.
use mathlib.Core.List.{append-nil, append_assoc}
use dbwrapper.Prelude.{
  ℕ, zero, suc, ◌≡◌, ◌≢◌, ◌↔◌, refl, sym, List, [], ◌∷◌, ◌++◌, map, Option, none, some, arith,
  length, All, All-map, All-to_map, remove_if-All,
}
use dbwrapper.ConnManager.Info.{ConnInfo}
use dbwrapper.ConnManager.Pool.{Pool, Conn, Residue, conns, size, new_conn}
use dbwrapper.ConnManager.Pool
use dbwrapper.ConnManager.Pool.Rotation.{get_conn-none}
use dbwrapper.ConnManager.Pool.Partition.{del_conn_info-All, equals-false}
use dbwrapper.ConnManager.Manager.{World, get_conn, del_conn}
use dbwrapper.ConnManager.Manager.Reports.{pool_at, with_pool, on_connected}
use dbwrapper.ConnManager.Manager.Soundness.{IsSound}
use dbwrapper.ConnManager.Manager.Delivery.{on_connected-add_conn}

get_conn-cons :
    (w : World) (p : Pool) (ps : List Pool)
    → w.manager.pool_list ≡ p ∷ ps
    → get_conn w ≡ (
      (Pool.get_conn p).0,
      record w { manager = record (w.manager) { pool_list = ps ++ (Pool.get_conn p).1 ∷ [] } },
    )
unfolding get_conn
get_conn-cons w p ps e = rw (e, get_conn)

-- A request is answered by the front pool alone: it gets no connection exactly when that pool has
-- none, however many connections the other pools hold, and the pool goes to the back.
get_conn-front :
    (w : World) (p : Pool) (ps : List Pool)
    → w.manager.pool_list ≡ p ∷ ps
    → (((get_conn w).0 ≡ none) ↔ (size p ≡ 0))
      × ((get_conn w).1.manager.pool_list ≡ ps ++ (Pool.get_conn p).1 ∷ [])
get_conn-front w p ps e = rw (get_conn-cons w p ps e) (get_conn-none p, refl)

-- What `n` requests in a row return, and the state after them.
pub get_conns : ℕ → World → List (Option Conn) × World
get_conns zero w = ([], w)
get_conns (suc n) w = let (r, w') = get_conn w in let (rs, w'') = get_conns n w' in (r ∷ rs, w'')

abbrev with_pools : World → List Pool → World
with_pools w ps = record w { manager = record (w.manager) { pool_list = ps } }

turns :
    (w : World) (ps qs : List Pool)
    → w.manager.pool_list ≡ ps ++ qs
    → get_conns (length ps) w
      ≡ (map (λ p. (Pool.get_conn p).0) ps, with_pools w (qs ++ map (λ p. (Pool.get_conn p).1) ps))
unfolding get_conns
turns w [] qs e = ground (arith, append-nil qs)
turns w (p ∷ ps) qs e =
    let p' = (Pool.get_conn p).1 in
    ground (
      arith,
      get_conn-cons w p (ps ++ qs) e,
      turns (with_pools w ((ps ++ qs) ++ p' ∷ [])) ps (qs ++ p' ∷ []),
      append_assoc ps qs (p' ∷ []),
      append_assoc qs (p' ∷ []) (map (λ q. (Pool.get_conn q).1) ps),
    )

-- As many requests in a row as there are pools are answered by each pool once, in order, and the
-- pools are then in the order in which they were, each with its own turn taken.
pub get_conns-pools :
    (w : World)
    → get_conns (length w.manager.pool_list) w ≡ (
      map (λ p. (Pool.get_conn p).0) w.manager.pool_list,
      with_pools w (map (λ p. (Pool.get_conn p).1) w.manager.pool_list),
    )
get_conns-pools w = turns w w.manager.pool_list [] (sym (append-nil w.manager.pool_list))

-- After `del_conn(info)` in a sound state, no pool holds a connection with that description, and
-- pools that are added later are not given it.
pub del_conn-All :
    (info : ConnInfo) (w : World)
    → IsSound w
    → All (λ p. All (λ c. c.info ≢ info) (conns p)) (del_conn info w).manager.pool_list
      × All (λ i. i ≢ info) (del_conn info w).manager.info_list
unfolding del_conn
del_conn-All info w s = (
  All-to_map (λ p. Pool.del_conn_info p info) _ w.manager.pool_list
      (All-map (λ p o. del_conn_info-All p info o.0) w.manager.pool_list s.orderly),
  All-map (λ i. equals-false i info) _ (remove_if-All _ w.manager.info_list),
)

-- A connection that `add_conn(info)` starts for a live pool of a sound state joins that pool when it
-- reports that it is connected.
pub new_conn-on_connected :
    (address : ℕ → ℕ) (old : Residue) (w : World) (p : Pool) (at : ℕ) (info : ConnInfo)
    → IsSound w
    → pool_at p.address w.manager.pool_list ≡ some p
    → on_connected address old (new_conn p at info) w
      ≡ some (with_pool (Pool.add_conn p (new_conn p at info)) w)
unfolding new_conn
new_conn-on_connected address old w p at info s alive =
    on_connected-add_conn address old w s p alive (new_conn p at info) refl refl
