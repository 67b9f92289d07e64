-- ===== src/ConnManager/Manager/History.antt =====
-- Every history of the manager, from its construction on, as a sequence of steps.
use dbwrapper.Prelude.{ℕ, ◌+◌, ◌^◌, ◌<◌, ◌≡◌, ◌≢◌, some, List, All}
use mathlib.Core.Path.{subst}
use dbwrapper.ConnManager.Info.{ConnInfo, conn_inc, conn_dec}
use dbwrapper.ConnManager.Pool.{Conn, Residue}
use dbwrapper.ConnManager.Manager.{
  World, new_manager, add_pool, del_pool, get_conn, add_conn, del_conn,
}
use dbwrapper.ConnManager.Manager.Reports.{tell_pool, on_connected, on_disconnected}
use dbwrapper.ConnManager.Manager.Soundness.{
  IsSound, new_manager-IsSound, add_pool-IsSound, del_pool-IsSound, add_conn-IsSound,
  del_conn-IsSound,
}
use dbwrapper.ConnManager.Manager.Turns.{get_conn-IsSound}
use dbwrapper.ConnManager.Manager.Delivery.{tell_pool-IsSound}

-- A call of the manager, or a message of any connection to any id on the bus of the pools. A pool
-- is allocated at an address that no live pool has, while the ids last.
pub data Step : World → World → Type 0 where
  adds_pool :
      (address : ℕ → ℕ) (old : Residue) (w : World)
      → w.counter + 3 < 2 ^ 32
      → All (λ q. q.address ≢ address 0) w.manager.pool_list
      → Step w (add_pool address old w).1
  deletes_pool : (id : ℕ) (w : World) → Step w (del_pool id w)
  serves : (w : World) → Step w (get_conn w).1
  gains : (address : ℕ → ℕ) (info : ConnInfo) (w : World) → Step w (add_conn address info w)
  drops : (info : ConnInfo) (w : World) → Step w (del_conn info w)
  reports :
      (address : ℕ → ℕ) (old : Residue) (topic : List ℕ) (c : Conn) (id : ℕ) {w w' : World}
      → tell_pool address old topic c id w ≡ some w'
      → Step w w'

pub data Reach (s : World) : World → Type 0 where
  here : Reach s s
  next : {w w' : World} → Reach s w → Step w w' → Reach s w'

pub Step-IsSound : {w w' : World} → Step w w' → IsSound w → IsSound w'
Step-IsSound (adds_pool address old w fits fresh) s = add_pool-IsSound address old w fits fresh s
Step-IsSound (deletes_pool id w) s = del_pool-IsSound id w s
Step-IsSound (serves w) s = get_conn-IsSound w s
Step-IsSound (gains address info w) s = add_conn-IsSound address info w s
Step-IsSound (drops info w) s = del_conn-IsSound info w s
Step-IsSound (reports address old topic c id {w = w} {w' = w'} e) s =
    let (v, done, sound) = tell_pool-IsSound address old topic c id w s in
    subst IsSound (cc (done, e)) sound

-- Every state that a manager reaches from its construction, while the ids last and new pools get
-- addresses of their own, is sound: each handler on the bus of the
-- pools belongs to a pool in the list, each pool hears the ids that it hands to its connections,
-- ids and addresses of pools are distinct, and each pool keeps its local connections apart from the
-- others, all under its own id.
pub Reach-IsSound : (address : ℕ) {w : World} → Reach (new_manager address) w → IsSound w
Reach-IsSound address here = new_manager-IsSound address
Reach-IsSound address (next r st) = Step-IsSound st (Reach-IsSound address r)

-- No report runs a handler of a destroyed pool: in every state that a manager reaches, a connection
-- that calls `onConnected` or `onDisconnected`, whatever ids and index it holds, gets a new state.
pub reports_never_fault :
    (start : ℕ) {w : World} (address : ℕ → ℕ) (old : Residue) (c : Conn)
    → Reach (new_manager start) w
    → ((w' : World) × (on_connected address old c w ≡ some w'))
      × ((w' : World) × (on_disconnected address old c w ≡ some w'))
unfolding on_connected on_disconnected
reports_never_fault start {w} address old c r =
    let (v, e, _) =
      tell_pool-IsSound address old conn_inc c c.conn_inc_id w (Reach-IsSound start r) in
    let (v', e', _) =
      tell_pool-IsSound address old conn_dec c c.conn_dec_id w (Reach-IsSound start r) in
    ((v, e), (v', e'))
