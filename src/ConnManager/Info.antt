-- ===== src/ConnManager/Info.antt =====
-- include/connManager/util.h: `ConnInfo`, the description of a connection, with its `==` and `<`.
-- A `std::string` is the list of its bytes, an `int` the integer that it holds.
pub mod Ordering
use dbwrapper.Prelude.{ℕ, ◌≡◌, Bool, true, false, not, ◌&&◌, List, ℤ, pos, int_eqb, int_ltb, codes}
use dbwrapper.Prelude.Order.{lex, string_eqb, string_ltb}

pub record ConnInfo : Type 0 where
  pub source_ip : List ℕ
  pub source_port : List ℕ
  pub dest_ip : List ℕ
  pub dest_port : List ℕ
  -- 0 is local, anything else remote.
  pub type : ℤ

-- `operator==`
unfoldable pub equals : ConnInfo → ConnInfo → Bool
equals a b =
    string_eqb a.source_ip b.source_ip
    && string_eqb a.source_port b.source_port
    && string_eqb a.dest_ip b.dest_ip
    && string_eqb a.dest_port b.dest_port
    && int_eqb a.type b.type

-- `std::tie` of the five members.
abbrev pub tied : ConnInfo → List ℕ × (List ℕ × (List ℕ × (List ℕ × ℤ)))
tied a = (a.source_ip, (a.source_port, (a.dest_ip, (a.dest_port, a.type))))

-- `operator<`: the argument stands on the left of the comparison of tuples.
unfoldable pub less : ConnInfo → ConnInfo → Bool
less a r =
    lex string_ltb (lex string_ltb (lex string_ltb (lex string_ltb int_ltb))) (tied r) (tied a)

-- `!info.type`: the test by which a pool chooses the local list.
unfoldable pub is_local : ConnInfo → Bool
is_local a = int_eqb a.type (pos 0)

-- The topics of the two buses.
abbrev pub conn_inc : List ℕ
conn_inc = codes "conn_inc"

abbrev pub conn_dec : List ℕ
conn_dec = codes "conn_dec"

abbrev pub pool_inc : List ℕ
pool_inc = codes "pool_inc"

abbrev pub pool_dec : List ℕ
pool_dec = codes "pool_dec"
