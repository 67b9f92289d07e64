-- ===== src/ConnManager/Pool/Rotation.antt =====
-- `get_conn` serves the connections of a pool in turn.
use mathlib.Core.List.{append-nil, append_assoc}
use dbwrapper.Prelude.{
  ℕ, zero, suc, ◌≡◌, ◌↔◌, sym, List, [], ◌∷◌, ◌++◌, map, Option, none, some, arith, length,
}
use dbwrapper.ConnManager.Pool.{Pool, Conn, get_conn, size}

-- What `n` calls in a row return, and the pool after them.
pub get_conns : ℕ → Pool → List (Option Conn) × Pool
get_conns zero p = ([], p)
get_conns (suc n) p = let (r, p') = get_conn p in let (rs, p'') = get_conns n p' in (r ∷ rs, p'')

get_conn-local :
    (p : Pool) (x : Conn) (xs : List Conn)
    → p.local_list ≡ x ∷ xs
    → get_conn p ≡ (some x, record p { local_list = xs ++ x ∷ [] })
unfolding get_conn
get_conn-local p x xs e = rw (e, get_conn)

get_conn-remote :
    (p : Pool) (x : Conn) (xs : List Conn)
    → p.local_list ≡ []
    → p.remote_list ≡ x ∷ xs
    → get_conn p ≡ (some x, record p { remote_list = xs ++ x ∷ [] })
unfolding get_conn
get_conn-remote p x xs e h = ground arith

local_turns :
    (p : Pool) (xs ys : List Conn)
    → p.local_list ≡ xs ++ ys
    → get_conns (length xs) p ≡ (map some xs, record p { local_list = ys ++ xs })
unfolding get_conns
local_turns p [] ys e = ground (arith, append-nil ys)
local_turns p (x ∷ xs) ys e = ground (
  arith,
  get_conn-local p x (xs ++ ys) e,
  local_turns (record p { local_list = (xs ++ ys) ++ x ∷ [] }) xs (ys ++ x ∷ []),
  append_assoc xs ys (x ∷ []),
  append_assoc ys (x ∷ []) xs,
)

remote_turns :
    (p : Pool) (xs ys : List Conn)
    → p.local_list ≡ []
    → p.remote_list ≡ xs ++ ys
    → get_conns (length xs) p ≡ (map some xs, record p { remote_list = ys ++ xs })
unfolding get_conns
remote_turns p [] ys h e = ground (arith, append-nil ys)
remote_turns p (x ∷ xs) ys h e = ground (
  arith,
  get_conn-remote p x (xs ++ ys) h e,
  remote_turns (record p { remote_list = (xs ++ ys) ++ x ∷ [] }) xs (ys ++ x ∷ []),
  append_assoc xs ys (x ∷ []),
  append_assoc ys (x ∷ []) xs,
)

-- As many calls in a row as the pool has local connections return each of them once, in their
-- order, and leave the pool as it was.
pub get_conns-local : (p : Pool) → get_conns (length p.local_list) p ≡ (map some p.local_list, p)
get_conns-local p = local_turns p p.local_list [] (sym (append-nil p.local_list))

-- In a pool with no local connection the same holds of the remote ones.
pub get_conns-remote :
    (p : Pool)
    → p.local_list ≡ []
    → get_conns (length p.remote_list) p ≡ (map some p.remote_list, p)
get_conns-remote p h = remote_turns p p.remote_list [] h (sym (append-nil p.remote_list))

pub get_conn-none : (p : Pool) → ((get_conn p).0 ≡ none) ↔ (size p ≡ 0)
unfolding get_conn size
get_conn-none p = ground arith
