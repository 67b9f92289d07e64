-- ===== src/ConnManager/Examples/Parts.antt =====
-- The bus, a pool and the discovery on small inputs, and the theorems there.
use mathlib.Core.List.{foldl}
use dbwrapper.Prelude.{
  ℕ, ◌+◌, ◌≡◌, refl, true, false, ◌&&◌, List, [], ◌∷◌, none, some, arith, ◌==◌, if◌then◌else◌,
  remove_if,
}
use dbwrapper.Prelude.Order.{string_eqb}
use dbwrapper.Prelude.OrderedSet.{contains, contains-nil, contains-cons, same_refl}
use dbwrapper.ConnManager.Info.{ConnInfo, equals, less, is_local, conn_inc}
use dbwrapper.ConnManager.Info.Ordering.{less-IsOrder}
use dbwrapper.ConnManager.Bus.{Entry, call, remove_handler}
use dbwrapper.ConnManager.Bus.Dispatch.{HasUniqueIds, call-remove_handler}
use dbwrapper.ConnManager.Pool.{Pool, Conn}
use dbwrapper.ConnManager.Pool.Partition.{IsPartitioned}
use dbwrapper.ConnManager.Discovery.{done, undefined, ServiceDiscovery, get_conn_info}
use dbwrapper.ConnManager.Discovery.Rounds.{get_conn_info-done, get_conn_info-undefined}
use dbwrapper.ConnManager.Examples.{near, far}

abbrev conn : ℕ → ConnInfo → Conn
conn address info = record {
  address = address;
  info = info;
  pool_index = 4;
  conn_inc_id = 3;
  conn_dec_id = 2;
}

abbrev pool : List Conn → List Conn → Pool
pool xs ys = record {
  address = 1000;
  id = 4;
  conn_inc_id = 3;
  conn_dec_id = 2;
  pool_inc_id = 0;
  pool_dec_id = 1;
  local_list = xs;
  remote_list = ys;
}

abbrev mixed : Pool
mixed = pool (conn 1 near ∷ conn 2 near ∷ []) (conn 3 far ∷ [])

abbrev remote_only : Pool
remote_only = pool [] (conn 3 far ∷ conn 4 far ∷ [])

mixed-IsPartitioned : IsPartitioned mixed
unfolding is_local
mixed-IsPartitioned = record { local_only = (refl, (refl, tt)); remote_only = (refl, tt) }

-- Two entries with one topic; a handler is a number here.
abbrev entry : ℕ → Entry ℕ
entry i = record { name = conn_inc; handler = 50 + i; object = 1000; id = i }

abbrev two_entries : List (Entry ℕ)
two_entries = entry 0 ∷ entry 1 ∷ []

two_entries-HasUniqueIds : HasUniqueIds two_entries
two_entries-HasUniqueIds = (((λ e. omega arith), tt), (tt, tt))

call-remove_handler_example :
    call conn_inc 1 (remove_handler conn_inc 1000 0 two_entries)
    ≡ (elim (call conn_inc 1 two_entries) [
      | none ↦ none
      | some e ↦
          if string_eqb conn_inc conn_inc && (e.object == 1000 && 1 == 0) then none else some e
    ])
call-remove_handler_example =
    call-remove_handler conn_inc 1000 0 two_entries two_entries-HasUniqueIds conn_inc 1

-- A discovery that notes what is added, in a list.
abbrev discovery :
    List ConnInfo → (List ConnInfo → List ConnInfo) → ServiceDiscovery (List ConnInfo)
discovery known f = record {
  conn_list = known;
  get_conn_f = some f;
  cfg_inc = λ i s. i ∷ s;
  cfg_dec = λ i s. remove_if (λ j. equals j i) s;
}

get_conn_info-done_example :
    let d = discovery [] (λ _. near ∷ []) in
    (known : List ConnInfo) × (get_conn_info d []
      ≡ done (
        true,
        record d { conn_list = known },
        foldl (λ t i. d.cfg_inc i t) [] (remove_if (λ i. contains less i []) (near ∷ [])),
      ))
    × ((i : ConnInfo) → contains less i known ≡ contains less i (near ∷ []))
get_conn_info-done_example =
    get_conn_info-done (discovery [] (λ _. near ∷ [])) [] (λ _. near ∷ []) refl (tt, tt)
      (λ i h. cc (h, contains-nil less i))

near_known : contains less near (near ∷ []) ≡ true
near_known = ground (arith, contains-cons less near near [], same_refl less less-IsOrder near)

get_conn_info-undefined_example :
    let d = discovery (near ∷ []) (λ _. []) in
    (j : ConnInfo) × (t : List ConnInfo) × (get_conn_info d [] ≡ undefined (d.cfg_dec j t))
    × (contains less j (near ∷ []) ≡ true)
    × (contains less j [] ≡ false)
get_conn_info-undefined_example =
    get_conn_info-undefined (discovery (near ∷ []) (λ _. [])) [] (λ _. []) refl near near_known
      (contains-nil less near)
