-- ===== src/ConnManager/Info/Ordering.antt =====
-- `ConnInfo` is the key of a `std::set`: `operator<` is a strict total order, and the two elements
-- that it does not separate are those that `operator==` identifies.
use dbwrapper.Prelude.{◌≡◌, ◌↔◌, true, false, arith, int_ltb}
use dbwrapper.Prelude.Order.{
  IsOrder, lex, lex-IsOrder, int_ltb-IsOrder, int_eqb-eq, int_eqb_refl, string_ltb,
  string_ltb-IsOrder, string_eqb-eq, string_eqb_refl,
}
use dbwrapper.ConnManager.Info.{ConnInfo, equals, less, tied}

pub equals-eq : (a b : ConnInfo) → equals a b ≡ true → a ≡ b
unfolding equals
equals-eq a b h = ground (
  arith,
  string_eqb-eq a.source_ip b.source_ip,
  string_eqb-eq a.source_port b.source_port,
  string_eqb-eq a.dest_ip b.dest_ip,
  string_eqb-eq a.dest_port b.dest_port,
  int_eqb-eq a.type b.type,
)

pub equals_refl : (a : ConnInfo) → equals a a ≡ true
unfolding equals
equals_refl a = ground (
  arith,
  string_eqb_refl a.source_ip,
  string_eqb_refl a.source_port,
  string_eqb_refl a.dest_ip,
  string_eqb_refl a.dest_port,
  int_eqb_refl a.type,
)

tuple-IsOrder : IsOrder (lex string_ltb (lex string_ltb (lex string_ltb (lex string_ltb int_ltb))))
tuple-IsOrder = lex-IsOrder string_ltb-IsOrder (
    lex-IsOrder string_ltb-IsOrder
      (lex-IsOrder string_ltb-IsOrder (lex-IsOrder string_ltb-IsOrder int_ltb-IsOrder)))

tied-injective : (a b : ConnInfo) → tied a ≡ tied b → a ≡ b
tied-injective a b e = ground arith

less_irrefl : (a : ConnInfo) → less a a ≡ false
unfolding less
less_irrefl a = tuple-IsOrder.irrefl (tied a)

less_trans : (a b c : ConnInfo) → less a b ≡ true → less b c ≡ true → less a c ≡ true
unfolding less
less_trans a b c u v = tuple-IsOrder.trans (tied c) (tied b) (tied a) v u

less_connex : (a b : ConnInfo) → less a b ≡ false → less b a ≡ false → a ≡ b
unfolding less
less_connex a b u v = tied-injective a b (tuple-IsOrder.connex (tied a) (tied b) v u)

-- `operator<` is a strict total order on connection descriptions: no description is below itself,
-- it is transitive, and two descriptions of which neither is below the other are equal.
pub less-IsOrder : IsOrder less
less-IsOrder = record { irrefl = less_irrefl; trans = less_trans; connex = less_connex }

-- Two descriptions are equivalent under `operator<`, and so one element of a `std::set`, exactly
-- when `operator==` holds of them.
pub equals-less : (a b : ConnInfo) → (equals a b ≡ true) ↔ ((less a b ≡ false) × (less b a ≡ false))
equals-less a b = (to, from)
  where
    to : equals a b ≡ true → (less a b ≡ false) × (less b a ≡ false)
    to h = rw (equals-eq a b h) (less_irrefl b, less_irrefl b)

    from : (less a b ≡ false) × (less b a ≡ false) → equals a b ≡ true
    from (u, v) = rw (less_connex a b u v) (equals_refl b)
