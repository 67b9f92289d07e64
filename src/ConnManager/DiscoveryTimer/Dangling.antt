-- ===== src/ConnManager/DiscoveryTimer/Dangling.antt =====
-- The timer of a service discovery outlives it.
use mathlib.Core.Path.{subst}
use dbwrapper.Prelude.{
  ℕ, ◌-◌, ◌^◌, ◌≡◌, refl, sym, ◌∙◌, ap, Bool, true, List, [], ◌∷◌, none, arith, All,
}
use dbwrapper.ConnManager.Discovery.{ServiceDiscovery}
use dbwrapper.ConnManager.DiscoveryTimer.{
  Object, alive, destroyed, broken, on_timer, start_discovery, destroy_discovery,
}
use dbwrapper.Translib.Timer.{plain, new_timer, start_forever}
use dbwrapper.Translib.Timer.Rounds.{Waits, started, started-Waits, start_rounds-none}
use dbwrapper.Translib.TimerManager.{find, emplace, get_timer}
use dbwrapper.Translib.TimerManager.Shared.{
  Shared, Op, gets, releases, kills, stops, audits, starts, fires_at, get_shared, release, fire_at,
  step, run,
}
use dbwrapper.Translib.TimerManager.Goes.{Goes, settle-Goes, Spares, fired}
use dbwrapper.Translib.TimerManager.Lives.{run-fires}

module _ {S : Type 0} where
  -- An operation that is no event of a timer.
  abbrev pub IsQuiet : Op S → Type 0
  IsQuiet (fires_at c d b) = ⊥
  IsQuiet _ = Unit

  run-quiet : (ops : List (Op S)) (x : Shared S) (s : S) → All IsQuiet ops → (run ops (x, s)).1 ≡ s
  unfolding run step
  run-quiet [] x s q = refl
  run-quiet (gets b ∷ ops) x s (q, qs) = run-quiet ops _ s qs
  run-quiet (releases b ∷ ops) x s (q, qs) = run-quiet ops _ s qs
  run-quiet (kills i ∷ ops) x s (q, qs) = run-quiet ops _ s qs
  run-quiet (stops b ∷ ops) x s (q, qs) = run-quiet ops _ s qs
  run-quiet (audits ∷ ops) x s (q, qs) = run-quiet ops _ s qs
  run-quiet (starts b interval round h ∷ ops) x s (q, qs) = run-quiet ops _ s qs
  run-quiet (fires_at c d b ∷ ops) x s (q, qs) = elim q [ ]

  fired-quiet : (a : ℕ) (ops : List (Op S)) → All IsQuiet ops → fired a ops ≡ 0
  fired-quiet a [] q = refl
  fired-quiet a (gets b ∷ ops) (q, qs) = fired-quiet a ops qs
  fired-quiet a (releases b ∷ ops) (q, qs) = fired-quiet a ops qs
  fired-quiet a (kills i ∷ ops) (q, qs) = fired-quiet a ops qs
  fired-quiet a (stops b ∷ ops) (q, qs) = fired-quiet a ops qs
  fired-quiet a (audits ∷ ops) (q, qs) = fired-quiet a ops qs
  fired-quiet a (starts b interval round h ∷ ops) (q, qs) = fired-quiet a ops qs
  fired-quiet a (fires_at c d b ∷ ops) (q, qs) = elim q [ ]

  release-Goes :
      (id a : ℕ) (f : S → S) (left b : ℕ) (x : Shared S)
      → Goes id a f left x
      → Goes id a f left (release b x)
  unfolding release
  release-Goes id a f left b x g =
      settle-Goes id a f left b _ (record { known = g.known; going = g.going })

module _ {W : Type 0} where
  start_discovery-Goes :
      (address : ℕ) (x : Shared (Object W))
      → find x.manager.unique_id x.manager.t_map ≡ none
      → Goes x.manager.unique_id address on_timer (2 ^ 32 - 2) (start_discovery true true address x)
  unfolding start_discovery get_shared get_timer emplace find start_forever
  start_discovery-Goes address x e =
      let t = started 5000 (2 ^ 32 - 1) (plain on_timer) new_timer in
      let made : (start_discovery true true address x).timers address ≡ t =
        ground
          (arith, start_rounds-none true true 5000 (2 ^ 32 - 1) (plain on_timer) new_timer refl) in
      record {
        known = ground (arith, e);
        going =
            subst (λ u. Waits u (plain on_timer) (2 ^ 32 - 2)) (sym made)
              (started-Waits 5000 (2 ^ 32 - 2) (plain on_timer) new_timer (omega arith));
      }

  -- A service discovery whose timer libevent has made, under an id that the map did not hold, leaves
  -- the timer going when it is destroyed: whatever else the manager of the timers does before, but for
  -- a `killTimer` of that id, which nobody keeps, a `stop`, or a new timer at its address, the next
  -- event of the timer runs `getConnInfo` on the object that is gone.
  pub destroy_discovery-broken :
      (address : ℕ) (x : Shared (Object W)) (d : ServiceDiscovery W) (w : W)
      (ops : List (Op (Object W))) (created added : Bool)
      → find x.manager.unique_id x.manager.t_map ≡ none
      → All (Spares x.manager.unique_id address) ops
      → All IsQuiet ops
      → let gone = destroy_discovery address (start_discovery true true address x, alive d w) in
        (fire_at created added address (run ops gone)).1 ≡ broken w
  unfolding destroy_discovery on_timer
  destroy_discovery-broken address x d w ops created added new h q =
      let id = x.manager.unique_id in
      let y = release address (start_discovery true true address x) in
      let g : Goes id address on_timer (2 ^ 32 - 2) y =
        release-Goes id address on_timer (2 ^ 32 - 2) address _
          (start_discovery-Goes address x new) in
      run-fires id address on_timer (2 ^ 32 - 2) ops y (destroyed w) created added g.known g.going h
        (omega (arith, fired-quiet address ops q))
      ∙ ap on_timer (run-quiet ops y (destroyed w) q)
