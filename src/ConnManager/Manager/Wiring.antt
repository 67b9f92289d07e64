-- ===== src/ConnManager/Manager/Wiring.antt =====
-- The bus of the pools, against the list of the pools: every handler on it belongs to a pool that
-- is alive, and every pool hears the messages that carry its ids.
pub mod Removal
use mathlib.Core.Path.{subst}
use dbwrapper.Prelude.{
  All-always, All-of_map, All-to_map, Any-of_map, Any-to_map, Distinct-of_map, Distinct-to_map,
  Distinct-split, Any-remove_if, ℕ, ◌+◌, ◌<◌, ◌≡◌, ◌≢◌, refl, ◌∙◌, Bool, ◌⊎◌, inl, inr, List, [],
  ◌∷◌, ◌++◌, map, some, arith, All, All-append, All-map, All-map₂, All-remove_if, Any,
  Any-append_left, Any-append_right, Distinct, Distinct-snoc, Distinct-remove_if, remove_if,
  remove_if-All, keep_if,
}
use dbwrapper.Prelude.Order.{string_eqb_refl}
use dbwrapper.ConnManager.Info.{conn_inc, conn_dec}
use dbwrapper.ConnManager.Bus.{Entry, remove_handler, call}
use dbwrapper.ConnManager.Bus.Dispatch.{
  HasUniqueIds, IsBelow, call-All, call_here, call_later, call-remove_handler_ne,
}
use dbwrapper.ConnManager.Pool.{Pool, PoolHandler, on_conn_dec, on_conn_inc, destroy}
use dbwrapper.ConnManager.Pool.Contents.{wires}
use dbwrapper.ConnManager.Manager.{destroy_all}

abbrev pub inc_entry : Pool → Entry PoolHandler
inc_entry p = record {
  name = conn_inc;
  handler = on_conn_inc;
  object = p.address;
  id = p.conn_inc_id;
}

abbrev pub dec_entry : Pool → Entry PoolHandler
dec_entry p = record {
  name = conn_dec;
  handler = on_conn_dec;
  object = p.address;
  id = p.conn_dec_id;
}

abbrev pub Owns : Entry PoolHandler → Pool → Type 0
Owns e p = (e ≡ inc_entry p) ⊎ (e ≡ dec_entry p)

abbrev pub Hears : List (Entry PoolHandler) → Pool → Type 0
Hears bus p =
    (call conn_inc p.conn_inc_id bus ≡ some (inc_entry p))
    × (call conn_dec p.conn_dec_id bus ≡ some (dec_entry p))

pub record IsWired (counter : ℕ) (bus : List (Entry PoolHandler)) (ps : List Pool) : Type 0 where
  pub unique : HasUniqueIds bus
  pub below : IsBelow counter bus
  pub addresses : Distinct (λ p. p.address) ps
  pub ids : Distinct (λ p. p.id) ps
  pub ids_below : All (λ p. p.id < counter) ps
  pub hear : All (Hears bus) ps
  pub owned : All (λ e. Any (Owns e) ps) bus

-- The handlers of a new pool have ids that no other pool listens to.
still-Hears :
    (p : Pool) (counter : ℕ) (bus : List (Entry PoolHandler)) (q : Pool)
    → p.conn_dec_id ≡ counter
    → p.conn_inc_id ≡ counter + 1
    → IsBelow counter bus
    → Hears bus q
    → Hears (inc_entry p ∷ dec_entry p ∷ bus) q
still-Hears p counter bus q dec inc below (h, k) = (
  past conn_inc q.conn_inc_id (inc_entry q) h refl,
  past conn_dec q.conn_dec_id (dec_entry q) k refl,
)
  where
    past :
        (topic : List ℕ) (i : ℕ) (e : Entry PoolHandler)
        → call topic i bus ≡ some e
        → e.id ≡ i
        → call topic i (inc_entry p ∷ dec_entry p ∷ bus) ≡ some e
    past topic i e h same =
        let lt = call-All (λ x. x.id < counter) topic i bus e h below in
        call_later topic i (inc_entry p) (dec_entry p ∷ bus) (λ x. omega arith)
        ∙ (call_later topic i (dec_entry p) bus (λ x. omega arith) ∙ h)

-- A pool joins the list, with the two handlers that it has just registered.
pub add-IsWired :
    (p : Pool) (counter : ℕ) (bus : List (Entry PoolHandler)) (ps : List Pool)
    → p.conn_dec_id ≡ counter
    → p.conn_inc_id ≡ counter + 1
    → p.id ≡ counter + 2
    → All (λ q. q.address ≢ p.address) ps
    → IsWired counter bus ps
    → IsWired (counter + 3) (inc_entry p ∷ dec_entry p ∷ bus) (ps ++ p ∷ [])
add-IsWired p counter bus ps dec inc own fresh w = record {
  unique = (
    ((λ e. omega arith), All-map (λ e lt. omega arith) bus w.below),
    (All-map (λ e lt. omega arith) bus w.below, w.unique),
  );
  below = (omega arith, (omega arith, All-map (λ e lt. omega arith) bus w.below));
  addresses = Distinct-snoc _ ps p w.addresses fresh;
  ids = Distinct-snoc _ ps p w.ids (All-map (λ q lt. omega arith) ps w.ids_below);
  ids_below =
      All-append _ ps (p ∷ []) (All-map (λ q lt. omega arith) ps w.ids_below) (omega arith, tt);
  hear =
      All-append _ ps (p ∷ [])
        (All-map (λ q h. still-Hears p counter bus q dec inc w.below h) ps w.hear)
        (
          (
            call_here (inc_entry p) _,
            call_later conn_dec p.conn_dec_id (inc_entry p) _ (λ e. omega arith)
                ∙ call_here (dec_entry p) bus,
          ),
          tt,
        );
  owned = (
    Any-append_right _ ps (p ∷ []) (inl (inl refl)),
    (
      Any-append_right _ ps (p ∷ []) (inl (inr refl)),
      All-map (λ e h. Any-append_left (Owns e) ps (p ∷ []) h) bus w.owned,
    ),
  );
}

-- The bus does not see the connections of a pool.
pub wires-IsWired :
    (counter : ℕ) (bus : List (Entry PoolHandler)) (ps qs : List Pool)
    → map wires ps ≡ map wires qs
    → IsWired counter bus ps
    → IsWired counter bus qs
wires-IsWired counter bus ps qs e w = record {
  unique = w.unique;
  below = w.below;
  addresses =
      Distinct-of_map wires _ qs
        (subst (Distinct (λ p. p.address)) e (Distinct-to_map wires _ ps w.addresses));
  ids =
      Distinct-of_map wires _ qs
        (subst (Distinct (λ p. p.id)) e (Distinct-to_map wires _ ps w.ids));
  ids_below =
      All-of_map wires _ qs
        (subst (All (λ p. p.id < counter)) e (All-to_map wires _ ps w.ids_below));
  hear = All-of_map wires _ qs (subst (All (Hears bus)) e (All-to_map wires _ ps w.hear));
  owned =
      All-map (λ x h. Any-of_map wires _ qs (subst (Any (Owns x)) e (Any-to_map wires _ ps h))) bus
        w.owned;
}
