-- ===== src/ConnManager/Pool.antt =====
-- include/connManager/connManager.h: `connPool`, and the connection class that its template
-- parameter `DBConn` stands for, as the template in include/connManager/connInterface.h writes it.
-- An object is known by its address. What a pool reads of a connection is set before `connect` is
-- called and does not change afterwards, so a list of shared pointers is a list of these values.
pub mod Contents
pub mod Partition
pub mod Rotation
use dbwrapper.Prelude.{
  ℕ, ◌+◌, Bool, true, false, List, [], ◌∷◌, ◌++◌, Option, none, some, ◌==◌, if◌then◌else◌, length,
  remove_if,
}
use dbwrapper.ConnManager.Info.{ConnInfo, equals, is_local, conn_inc, conn_dec}
use dbwrapper.ConnManager.Bus.{Entry, register_handler, remove_handler}

pub record Conn : Type 0 where
  pub address : ℕ
  pub info : ConnInfo
  pub pool_index : ℕ
  pub conn_inc_id : ℕ
  pub conn_dec_id : ℕ

pub record Pool : Type 0 where
  pub address : ℕ
  pub id : ℕ
  pub conn_inc_id : ℕ
  pub conn_dec_id : ℕ
  pub pool_inc_id : ℕ
  pub pool_dec_id : ℕ
  pub local_list : List Conn
  pub remote_list : List Conn

-- The members that the constructor leaves uninitialised: what the memory held before.
pub record Residue : Type 0 where
  pub id : ℕ
  pub pool_inc_id : ℕ
  pub pool_dec_id : ℕ

-- The two lambdas that a pool registers.
pub data PoolHandler : Type 0 where
  on_conn_dec on_conn_inc : PoolHandler

-- `connPool()`: the pool, the id counter and the bus of the pools.
unfoldable pub new_pool :
    ℕ → Residue → ℕ → List (Entry PoolHandler) → Pool × ℕ × List (Entry PoolHandler)
unfolding register_handler
new_pool address old counter bus =
    let (dec_id, counter₁, bus₁) = register_handler conn_dec address on_conn_dec counter bus in
    let (inc_id, counter₂, bus₂) = register_handler conn_inc address on_conn_inc counter₁ bus₁ in
    (
      record {
        address = address;
        id = old.id;
        conn_inc_id = inc_id;
        conn_dec_id = dec_id;
        pool_inc_id = old.pool_inc_id;
        pool_dec_id = old.pool_dec_id;
        local_list = [];
        remote_list = [];
      },
      counter₂,
      bus₂,
    )

-- `~connPool()`: the bus without the pool's handlers.
unfoldable pub destroy : Pool → List (Entry PoolHandler) → List (Entry PoolHandler)
unfolding remove_handler
destroy p bus =
    remove_handler conn_dec p.address p.conn_dec_id
      (remove_handler conn_inc p.address p.conn_inc_id bus)

-- `add_conn(DBConn *)`
unfoldable pub add_conn : Pool → Conn → Pool
add_conn p c =
    if is_local c.info
    then record p { local_list = p.local_list ++ c ∷ [] }
    else record p { remote_list = p.remote_list ++ c ∷ [] }

-- `add_conn(connInfo)`: the connection made at `address`, on which `connect` is then called. The
-- pool itself does not change: the connection reports on the bus when it is connected.
unfoldable pub new_conn : Pool → ℕ → ConnInfo → Conn
new_conn p address info = record {
  address = address;
  info = info;
  pool_index = p.id;
  conn_inc_id = p.conn_inc_id;
  conn_dec_id = p.conn_dec_id;
}

-- `del_conn(DBConn *)`: pointers are compared.
unfoldable pub del_conn : Pool → Conn → Pool
del_conn p c =
    if is_local c.info
    then record p { local_list = remove_if (λ db. db.address == c.address) p.local_list }
    else record p { remote_list = remove_if (λ db. db.address == c.address) p.remote_list }

-- `del_conn(connInfo)`: descriptions are compared.
unfoldable pub del_conn_info : Pool → ConnInfo → Pool
del_conn_info p info =
    if is_local info
    then record p { local_list = remove_if (λ db. equals db.info info) p.local_list }
    else record p { remote_list = remove_if (λ db. equals db.info info) p.remote_list }

-- `get_conn`: the front of the first list that is not empty goes to its back and is returned.
unfoldable pub get_conn : Pool → Option Conn × Pool
get_conn p = elim p.local_list [
  | c ∷ rest ↦ (some c, record p { local_list = rest ++ c ∷ [] })
  | [] ↦ elim p.remote_list [
    | c ∷ rest ↦ (some c, record p { remote_list = rest ++ c ∷ [] })
    | [] ↦ (none, p)
  ]
]

-- Every connection of a pool, and their number.
abbrev pub conns : Pool → List Conn
conns p = p.local_list ++ p.remote_list

unfoldable pub size : Pool → ℕ
size p = length p.local_list + length p.remote_list
