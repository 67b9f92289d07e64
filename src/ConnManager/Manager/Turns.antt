-- ===== src/ConnManager/Manager/Turns.antt =====
-- The turn that `get_conn` takes keeps the state sound.
use mathlib.Core.Path.{subst}
use mathlib.Core.List.{map-append}
use dbwrapper.Prelude.{
  ℕ, ◌≡◌, refl, sym, ap, ◌∙◌, inl, inr, List, [], ◌∷◌, ◌++◌, map, All, All-append, All-map,
  Distinct-snoc, Any-append_left, Any-append_right,
}
use dbwrapper.ConnManager.Bus.{Entry}
use dbwrapper.ConnManager.Pool.{Pool, Conn, Residue, PoolHandler, new_pool, conns}
use dbwrapper.ConnManager.Pool
use dbwrapper.ConnManager.Pool.Contents.{wires, get_conn-wires}
use dbwrapper.ConnManager.Manager.{World, get_conn}
use dbwrapper.ConnManager.Manager.Wiring.{IsWired, Owns, wires-IsWired}
use dbwrapper.ConnManager.Manager.Soundness.{IsSound, IsLinked, IsOrderly, get_conn-IsOrderly}

-- The order of the pools does not matter to the buses.
rotate-IsWired :
    (counter : ℕ) (bus : List (Entry PoolHandler)) (p : Pool) (ps : List Pool)
    → IsWired counter bus (p ∷ ps)
    → IsWired counter bus (ps ++ p ∷ [])
rotate-IsWired counter bus p ps w = record {
  unique = w.unique;
  below = w.below;
  addresses = Distinct-snoc _ ps p w.addresses.1 w.addresses.0;
  ids = Distinct-snoc _ ps p w.ids.1 w.ids.0;
  ids_below = All-append _ ps (p ∷ []) w.ids_below.1 (w.ids_below.0, tt);
  hear = All-append _ ps (p ∷ []) w.hear.1 (w.hear.0, tt);
  owned =
      All-map
        (λ e own. elim own [
          | inl h ↦ Any-append_right (Owns e) ps (p ∷ []) (inl h)
          | inr h ↦ Any-append_left (Owns e) ps (p ∷ []) h
        ])
        bus w.owned;
}

served-IsSound :
    (w : World) (ps : List Pool) → w.manager.pool_list ≡ ps → IsSound w → IsSound (get_conn w).1
unfolding get_conn
served-IsSound w [] e s = rw (e, get_conn) s
served-IsSound w (p ∷ ps) e s =
    let o = subst (All IsOrderly) e s.orderly in
    let l = subst (All (IsLinked w.manager)) e s.linked in
    let turned =
      wires-IsWired w.counter w.pool_bus (ps ++ p ∷ []) (ps ++ (Pool.get_conn p).1 ∷ [])
        (simp map-append (ap (λ q. map wires ps ++ q ∷ []) (sym (get_conn-wires p))))
        (rotate-IsWired w.counter w.pool_bus p ps
          (subst (IsWired w.counter w.pool_bus) e s.wired)) in
    rw (e, get_conn)
      (record {
        wired = turned;
        hears_inc = s.hears_inc;
        hears_dec = s.hears_dec;
        linked = All-append _ ps (_ ∷ []) l.1 (
          (
            ap (λ (q : Pool). q.pool_inc_id) (get_conn-wires p) ∙ l.0.0,
            ap (λ (q : Pool). q.pool_dec_id) (get_conn-wires p) ∙ l.0.1,
          ),
          tt,
        );
        orderly = All-append _ ps (_ ∷ []) o.1 (get_conn-IsOrderly p o.0, tt);
      })

pub get_conn-IsSound : (w : World) → IsSound w → IsSound (get_conn w).1
get_conn-IsSound w s = served-IsSound w w.manager.pool_list refl s
