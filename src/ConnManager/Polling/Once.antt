-- ===== src/ConnManager/Polling/Once.antt =====
-- The manager gets its one connection once.
use dbwrapper.Prelude.{ℕ, zero, suc, ◌≡◌, refl, true, List, [], ◌∷◌, some, arith}
use dbwrapper.Prelude.OrderedSet.{contains, insert, contains-nil, contains-cons, same_refl}
use dbwrapper.ConnManager.Info.{ConnInfo, less}
use dbwrapper.ConnManager.Info.Ordering.{less-IsOrder}
use dbwrapper.ConnManager.Manager.{World, add_conn}
use dbwrapper.ConnManager.Discovery.{
  ServiceDiscovery, done, get_conn_info, scan_reported, scan_known,
}
use dbwrapper.ConnManager.Polling.{local_redis, new_discovery, polls}

module _ {S : Type 0} (i : ConnInfo) (inc dec : ConnInfo → S → S) where
  -- A discovery that always reports the one description.
  abbrev steady : List ConnInfo → ServiceDiscovery S
  steady known = record {
    conn_list = known;
    get_conn_f = some (λ _. i ∷ []);
    cfg_inc = inc;
    cfg_dec = dec;
  }

  known_here : contains less i (i ∷ []) ≡ true
  known_here = ground (arith, contains-cons less i i [], same_refl less less-IsOrder i)

  first_round : (s : S) → get_conn_info (steady []) s ≡ done (true, steady (i ∷ []), inc i s)
  unfolding get_conn_info scan_reported scan_known insert
  first_round s = ground (arith, contains-nil less i, known_here)

  later_round : (s : S) → get_conn_info (steady (i ∷ [])) s ≡ done (true, steady (i ∷ []), s)
  unfolding get_conn_info scan_reported scan_known
  later_round s = ground (arith, known_here)

  later_rounds : (n : ℕ) (s : S) → polls n (steady (i ∷ [])) s ≡ done (steady (i ∷ []), s)
  unfolding polls
  later_rounds zero s = refl
  later_rounds (suc n) s = ground (arith, later_round s, later_rounds n s)

  all_rounds : (n : ℕ) (s : S) → polls (suc n) (steady []) s ≡ done (steady (i ∷ []), inc i s)
  unfolding polls
  all_rounds n s = ground (arith, first_round s, later_rounds n (inc i s))

-- However many rounds the discovery of a new manager runs, at least one, none of them is undefined,
-- and together they call `add_conn` once, with the local Redis, and `del_conn` never.
pub polls-add_conn :
    (address : World → ℕ → ℕ) (n : ℕ) (w : World)
    → let d = new_discovery address in
      polls (suc n) d w
      ≡ done (record d { conn_list = local_redis ∷ [] }, add_conn (address w) local_redis w)
unfolding new_discovery
polls-add_conn address n w = all_rounds local_redis _ _ n w
