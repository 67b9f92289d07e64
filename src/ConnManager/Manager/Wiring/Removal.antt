-- ===== src/ConnManager/Manager/Wiring/Removal.antt =====
-- Pools that are destroyed, with their handlers on the bus.
use dbwrapper.Prelude.{
  All-always, Distinct-split, Any-remove_if, ℕ, ◌≡◌, ◌≢◌, Bool, List, [], ◌∷◌, some, arith, All,
  All-map₂, All-remove_if, Distinct-remove_if, remove_if, remove_if-All, keep_if,
}
use dbwrapper.Prelude.Order.{string_eqb_refl}
use dbwrapper.ConnManager.Info.{conn_inc, conn_dec}
use dbwrapper.ConnManager.Bus.{Entry, remove_handler, call}
use dbwrapper.ConnManager.Bus.Dispatch.{HasUniqueIds, call-remove_handler_ne}
use dbwrapper.ConnManager.Pool.{Pool, PoolHandler, destroy}
use dbwrapper.ConnManager.Manager.{destroy_all}
use dbwrapper.ConnManager.Manager.Wiring.{inc_entry, dec_entry, Owns, Hears, IsWired}

-- A destroyed pool's handlers are gone, and no other's.
destroy-owned : (p : Pool) (bus : List (Entry PoolHandler)) → All (λ e. ¬ Owns e p) (destroy p bus)
unfolding destroy remove_handler
destroy-owned p bus =
    All-map₂ (λ e d i own. ground (arith, string_eqb_refl conn_inc, string_eqb_refl conn_dec)) _
      (remove_if-All _ (remove_handler conn_inc p.address p.conn_inc_id bus))
      (All-remove_if _ _ _ (remove_if-All _ bus))

destroy-All :
    (P : Entry PoolHandler → Type 0) (p : Pool) (bus : List (Entry PoolHandler))
    → All P bus
    → All P (destroy p bus)
unfolding destroy remove_handler
destroy-All P p bus h = All-remove_if P _ _ (All-remove_if P _ bus h)

destroy-HasUniqueIds :
    (p : Pool) (bus : List (Entry PoolHandler)) → HasUniqueIds bus → HasUniqueIds (destroy p bus)
unfolding destroy remove_handler
destroy-HasUniqueIds p bus u = Distinct-remove_if _ _ _ (Distinct-remove_if _ _ bus u)

destroy-Hears :
    (p q : Pool) (bus : List (Entry PoolHandler))
    → HasUniqueIds bus
    → q.address ≢ p.address
    → Hears bus q
    → Hears (destroy p bus) q
unfolding destroy remove_handler
destroy-Hears p q bus u other (inc, dec) = (
  still conn_inc q.conn_inc_id (inc_entry q) inc other,
  still conn_dec q.conn_dec_id (dec_entry q) dec other,
)
  where
    still :
        (topic : List ℕ) (i : ℕ) (e : Entry PoolHandler)
        → call topic i bus ≡ some e
        → e.object ≢ p.address
        → call topic i (destroy p bus) ≡ some e
    still topic i e h ne =
        call-remove_handler_ne _ _ _ _ topic i e (Distinct-remove_if _ _ bus u)
          (call-remove_handler_ne _ _ _ bus topic i e u h ne) ne

destroy_all-All :
    (P : Entry PoolHandler → Type 0) (rs : List Pool) (bus : List (Entry PoolHandler))
    → All P bus
    → All P (destroy_all rs bus)
unfolding destroy_all
destroy_all-All P [] bus h = h
destroy_all-All P (r ∷ rs) bus h = destroy_all-All P rs (destroy r bus) (destroy-All P r bus h)

destroy_all-HasUniqueIds :
    (rs : List Pool) (bus : List (Entry PoolHandler))
    → HasUniqueIds bus
    → HasUniqueIds (destroy_all rs bus)
unfolding destroy_all
destroy_all-HasUniqueIds [] bus u = u
destroy_all-HasUniqueIds (r ∷ rs) bus u =
    destroy_all-HasUniqueIds rs (destroy r bus) (destroy-HasUniqueIds r bus u)

destroy_all-Hears :
    (q : Pool) (rs : List Pool) (bus : List (Entry PoolHandler))
    → HasUniqueIds bus
    → All (λ r. q.address ≢ r.address) rs
    → Hears bus q
    → Hears (destroy_all rs bus) q
unfolding destroy_all
destroy_all-Hears q [] bus u other h = h
destroy_all-Hears q (r ∷ rs) bus u other h =
    destroy_all-Hears q rs (destroy r bus) (destroy-HasUniqueIds r bus u) other.1
      (destroy-Hears r q bus u other.0 h)

pub destroy_all-owned :
    (rs : List Pool) (bus : List (Entry PoolHandler))
    → All (λ e. All (λ r. ¬ Owns e r) rs) (destroy_all rs bus)
unfolding destroy_all
destroy_all-owned [] bus = All-always (λ e. tt) bus
destroy_all-owned (r ∷ rs) bus =
    All-map₂ (λ e gone others. (gone, others)) _
      (destroy_all-All _ rs (destroy r bus) (destroy-owned r bus))
      (destroy_all-owned rs (destroy r bus))

-- Pools leave the list and are destroyed.
pub remove-IsWired :
    (test : Pool → Bool) (counter : ℕ) (bus : List (Entry PoolHandler)) (ps : List Pool)
    → IsWired counter bus ps
    → IsWired counter (destroy_all (keep_if test ps) bus) (remove_if test ps)
remove-IsWired test counter bus ps w =
    let rs = keep_if test ps in
    record {
      unique = destroy_all-HasUniqueIds rs bus w.unique;
      below = destroy_all-All _ rs bus w.below;
      addresses = Distinct-remove_if _ test ps w.addresses;
      ids = Distinct-remove_if _ test ps w.ids;
      ids_below = All-remove_if _ test ps w.ids_below;
      hear =
          All-map₂ (λ q other h. destroy_all-Hears q rs bus w.unique other h) _
            (Distinct-split _ test ps w.addresses) (All-remove_if _ test ps w.hear);
      owned =
          All-map₂ (λ e own gone. Any-remove_if (Owns e) test ps own gone) _
            (destroy_all-All _ rs bus w.owned) (destroy_all-owned rs bus);
    }
