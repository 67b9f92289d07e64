-- ===== src/ConnManager/Pool/Partition.antt =====
-- The two lists of a pool: local connections in one, all others in the other, so that the list in
-- which a deletion looks is the one where the connection is.
use mathlib.Core.Path.{subst}
use dbwrapper.Prelude.{
  ◌≡◌, ◌≢◌, refl, ap, true, false, List, [], ◌∷◌, arith, ◌==◌, Bool-cases, inl, inr, All,
  All-append, All-map, All-map₂, All-left, All-right, All-remove_if, remove_if, remove_if-All,
}
use dbwrapper.ConnManager.Info.{ConnInfo, equals, is_local}
use dbwrapper.ConnManager.Info.Ordering.{equals_refl}
use dbwrapper.ConnManager.Pool.{Pool, Conn, add_conn, del_conn, del_conn_info, get_conn, conns}

pub record IsPartitioned (p : Pool) : Type 0 where
  pub local_only : All (λ c. is_local c.info ≡ true) p.local_list
  pub remote_only : All (λ c. is_local c.info ≡ false) p.remote_list

-- A new connection, reported on the bus, goes where it belongs.
pub add_conn-IsPartitioned : (p : Pool) (c : Conn) → IsPartitioned p → IsPartitioned (add_conn p c)
unfolding add_conn
add_conn-IsPartitioned p c v = elim (Bool-cases (is_local c.info)) [
  | inl e ↦ rw e (record {
    local_only = All-append (λ d. is_local d.info ≡ true) _ (c ∷ []) v.local_only (e, tt);
    remote_only = v.remote_only;
  })
  | inr e ↦ rw e (record {
    local_only = v.local_only;
    remote_only = All-append (λ d. is_local d.info ≡ false) _ (c ∷ []) v.remote_only (e, tt);
  })
]

pub del_conn-IsPartitioned : (p : Pool) (c : Conn) → IsPartitioned p → IsPartitioned (del_conn p c)
unfolding del_conn
del_conn-IsPartitioned p c v = ground (
  arith,
  All-remove_if _ (λ db. db.address == c.address) p.local_list v.local_only,
  All-remove_if _ (λ db. db.address == c.address) p.remote_list v.remote_only,
)

pub del_conn_info-IsPartitioned :
    (p : Pool) (info : ConnInfo) → IsPartitioned p → IsPartitioned (del_conn_info p info)
unfolding del_conn_info
del_conn_info-IsPartitioned p info v = ground (
  arith,
  All-remove_if _ (λ db. equals db.info info) p.local_list v.local_only,
  All-remove_if _ (λ db. equals db.info info) p.remote_list v.remote_only,
)

-- Taking turns moves a connection within its own list.
turned-IsPartitioned :
    (p : Pool) (xs ys : List Conn)
    → p.local_list ≡ xs
    → p.remote_list ≡ ys
    → IsPartitioned p
    → IsPartitioned (get_conn p).1
unfolding get_conn
turned-IsPartitioned p (x ∷ xs) ys e h v =
    let l = subst (All (λ c. is_local c.info ≡ true)) e v.local_only in
    rw (e, get_conn)
      (record {
        local_only = All-append (λ c. is_local c.info ≡ true) xs (x ∷ []) l.1 (l.0, tt);
        remote_only = v.remote_only;
      })
turned-IsPartitioned p [] (y ∷ ys) e h v =
    let l = subst (All (λ c. is_local c.info ≡ false)) h v.remote_only in
    rw (e, h, get_conn)
      (record {
        local_only = v.local_only;
        remote_only = All-append (λ c. is_local c.info ≡ false) ys (y ∷ []) l.1 (l.0, tt);
      })
turned-IsPartitioned p [] [] e h v = rw (e, h, get_conn) v

pub get_conn-IsPartitioned : (p : Pool) → IsPartitioned p → IsPartitioned (get_conn p).1
get_conn-IsPartitioned p v = turned-IsPartitioned p p.local_list p.remote_list refl refl v

pub equals-false : (a b : ConnInfo) → equals a b ≡ false → a ≢ b
equals-false a b h e = cc (equals_refl b, ap (λ x. equals x b) e)

-- After `del_conn(connInfo)` a pool whose lists are sorted out holds no connection, in either list,
-- that has the description.
pub del_conn_info-All :
    (p : Pool) (info : ConnInfo)
    → IsPartitioned p
    → All (λ c. c.info ≢ info) (conns (del_conn_info p info))
unfolding del_conn_info
del_conn_info-All p info v =
    let test = λ (db : Conn). equals db.info info in
    elim (Bool-cases (is_local info)) [
      | inl e ↦ rw e (
          All-append _ (remove_if test p.local_list) p.remote_list
            (All-map (λ c. equals-false c.info info) _ (remove_if-All test p.local_list))
            (All-map (λ c h same. cc (h, e, ap is_local same)) p.remote_list v.remote_only))
      | inr e ↦ rw e (
          All-append _ p.local_list (remove_if test p.remote_list)
            (All-map (λ c h same. cc (h, e, ap is_local same)) p.local_list v.local_only)
            (All-map (λ c. equals-false c.info info) _ (remove_if-All test p.remote_list)))
    ]

-- One address, one object: connections of the pool at the address of `c` are `c`.
abbrev pub IsAt : Conn → Pool → Type 0
IsAt c p = All (λ d. d.address ≡ c.address → d ≡ c) (conns p)

-- In a pool whose lists are sorted out, and where the address of the argument is that of no other
-- connection, `del_conn(DBConn *)` leaves no connection with that address in either list.
pub del_conn-All_address :
    (p : Pool) (c : Conn)
    → IsPartitioned p
    → IsAt c p
    → All (λ d. d.address ≢ c.address) (conns (del_conn p c))
unfolding del_conn
del_conn-All_address p c v one =
    let test = λ (db : Conn). db.address == c.address in
    let elsewhere : (d : Conn)
        → (d.address ≡ c.address → d ≡ c)
        → is_local d.info ≢ is_local c.info
        → d.address ≢ c.address =
      λ d same other at. other (ap (λ (x : Conn). is_local x.info) (same at)) in
    elim (Bool-cases (is_local c.info)) [
      | inl e ↦ rw e (
          All-append _ (remove_if test p.local_list) p.remote_list
            (All-map (λ d h. ground arith) _ (remove_if-All test p.local_list))
            (All-map₂ (λ d same h. elsewhere d same (λ eq. cc (h, e, eq))) p.remote_list
              (All-right _ p.local_list p.remote_list one) v.remote_only))
      | inr e ↦ rw e (
          All-append _ p.local_list (remove_if test p.remote_list)
            (All-map₂ (λ d same h. elsewhere d same (λ eq. cc (h, e, eq))) p.local_list
              (All-left _ p.local_list p.remote_list one) v.local_only)
            (All-map (λ d h. ground arith) _ (remove_if-All test p.remote_list)))
    ]
