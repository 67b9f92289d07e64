-- ===== src/ConnManager/Pool/Contents.antt =====
-- What the operations of a pool leave alone: its ids and its address, and whatever holds of each of
-- its connections.
use mathlib.Core.Path.{subst}
use dbwrapper.Prelude.{
  ◌≡◌, refl, Bool-cases, inl, inr, List, [], ◌∷◌, All, All-append, All-left, All-right,
  All-remove_if,
}
use dbwrapper.ConnManager.Info.{ConnInfo, is_local}
use dbwrapper.ConnManager.Pool.{Pool, Conn, add_conn, del_conn, del_conn_info, get_conn, conns}

-- A pool without its connections.
abbrev pub wires : Pool → Pool
wires p = record p { local_list = []; remote_list = [] }

pub del_conn_info-wires : (p : Pool) (info : ConnInfo) → wires (del_conn_info p info) ≡ wires p
unfolding del_conn_info
del_conn_info-wires p info = elim (Bool-cases (is_local info)) [ inl e ↦ rw e | inr e ↦ rw e ]

pub del_conn-wires : (p : Pool) (c : Conn) → wires (del_conn p c) ≡ wires p
unfolding del_conn
del_conn-wires p c = elim (Bool-cases (is_local c.info)) [ inl e ↦ rw e | inr e ↦ rw e ]

pub add_conn-wires : (p : Pool) (c : Conn) → wires (add_conn p c) ≡ wires p
unfolding add_conn
add_conn-wires p c = elim (Bool-cases (is_local c.info)) [ inl e ↦ rw e | inr e ↦ rw e ]

turned-wires :
    (p : Pool) (xs ys : List Conn)
    → p.local_list ≡ xs
    → p.remote_list ≡ ys
    → wires (get_conn p).1 ≡ wires p
unfolding get_conn
turned-wires p (x ∷ xs) ys e h = rw (e, get_conn)
turned-wires p [] (y ∷ ys) e h = rw (e, h, get_conn)
turned-wires p [] [] e h = rw (e, h, get_conn)

pub get_conn-wires : (p : Pool) → wires (get_conn p).1 ≡ wires p
get_conn-wires p = turned-wires p p.local_list p.remote_list refl refl

module _ {ℓ} (P : Conn → Type ℓ) (p : Pool) (all : All P (conns p)) where
  local_all : All P p.local_list
  local_all = All-left P p.local_list p.remote_list all

  remote_all : All P p.remote_list
  remote_all = All-right P p.local_list p.remote_list all

  pub del_conn_info-conns : (info : ConnInfo) → All P (conns (del_conn_info p info))
  unfolding del_conn_info
  del_conn_info-conns info = elim (Bool-cases (is_local info)) [
    | inl e ↦ rw e (All-append P _ p.remote_list (All-remove_if P _ _ local_all) remote_all)
    | inr e ↦ rw e (All-append P p.local_list _ local_all (All-remove_if P _ _ remote_all))
  ]

  pub del_conn-conns : (c : Conn) → All P (conns (del_conn p c))
  unfolding del_conn
  del_conn-conns c = elim (Bool-cases (is_local c.info)) [
    | inl e ↦ rw e (All-append P _ p.remote_list (All-remove_if P _ _ local_all) remote_all)
    | inr e ↦ rw e (All-append P p.local_list _ local_all (All-remove_if P _ _ remote_all))
  ]

  pub add_conn-conns : (c : Conn) → P c → All P (conns (add_conn p c))
  unfolding add_conn
  add_conn-conns c h = elim (Bool-cases (is_local c.info)) [
    | inl e ↦
        rw e (All-append P _ p.remote_list (All-append P _ (c ∷ []) local_all (h, tt)) remote_all)
    | inr e ↦
        rw e (All-append P p.local_list _ local_all (All-append P _ (c ∷ []) remote_all (h, tt)))
  ]

  turned-conns :
      (xs ys : List Conn) → p.local_list ≡ xs → p.remote_list ≡ ys → All P (conns (get_conn p).1)
  unfolding get_conn
  turned-conns (x ∷ xs) ys e h =
      let l = subst (All P) e local_all in
      rw (e, get_conn)
        (All-append P _ p.remote_list (All-append P xs (x ∷ []) l.1 (l.0, tt)) remote_all)
  turned-conns [] (y ∷ ys) e h =
      let r = subst (All P) h remote_all in
      rw (e, h, get_conn)
        (All-append P p.local_list _ local_all (All-append P ys (y ∷ []) r.1 (r.0, tt)))
  turned-conns [] [] e h = rw (e, h, get_conn) all

  pub get_conn-conns : All P (conns (get_conn p).1)
  get_conn-conns = turned-conns p.local_list p.remote_list refl refl
