-- ===== src/Translib/Timer/Callbacks.antt =====
-- A callback that stops its timer.
use dbwrapper.Prelude.{
  ℕ, zero, suc, ◌-◌, ◌^◌, ◌<◌, ◌≤◌, ◌≡◌, refl, ap, ◌∙◌, Bool, true, none, some, arith,
  if◌then◌else◌, ℤ, negsuc, int_eqb, Bool-cases, inl, inr,
}
use dbwrapper.Translib.Timer.{
  Timer, callback, reset, start_forever, start_cb, run_callback, run_handler, fires,
}
use dbwrapper.Translib.Timer.Rounds.{
  Waits, fires-quiet, fire-more, fire-last, next_round, finished, next_round-Waits, started,
  started-Waits, start_rounds-none,
}

-- A function that is called `n` times, or until it returns -1.
pub run_until : {S : Type 0} → ℕ → (S → ℤ × S) → S → S
run_until zero g s = s
run_until (suc n) g s =
    let (ret, s') = g s in
    let rest = run_until n g s' in if int_eqb ret (negsuc 0) then s' else rest

module _ {S : Type 0} (created added : Bool) where
  run_callback-some :
      (t : Timer S) (g : ℕ → ℕ → S → ℤ × S) (s : S)
      → t.cb_handler ≡ some g
      → let (ret, s') = g t.user_data t.tid s in
        run_callback t.cb_handler t s ≡ (if int_eqb ret (negsuc 0) then reset t else t, s')
  unfolding run_callback
  run_callback-some t g s e = rw (e, run_callback)

  reset-none : (t : Timer S) → (reset t).event ≡ none
  unfolding reset
  reset-none t = ground arith

  callback-fires :
      (n left : ℕ) (t : Timer S) (g : ℕ → ℕ → S → ℤ × S) (s : S)
      → Waits t callback left
      → t.cb_handler ≡ some g
      → n ≤ suc left
      → (fires created added n (t, s)).1 ≡ run_until n (g t.user_data t.tid) s
  unfolding fires run_until run_handler
  callback-fires zero left t g s w e le = refl
  callback-fires (suc zero) zero t g s w e le =
      let fired = fire-last created added t callback s w ∙ run_callback-some (finished t) g s e in
      ap (λ x. x.1) fired ∙ ground arith
  callback-fires (suc (suc n)) zero t g s w e le = ground arith
  callback-fires (suc n) (suc left) t g s w e le =
      let fired =
        fire-more created added t callback left s w ∙ run_callback-some (next_round t) g s e in
      ap (λ x. (fires created added n x).1) fired
      ∙ (elim (Bool-cases (int_eqb (g t.user_data t.tid s).0 (negsuc 0))) [
        | inl stop ↦ rw stop (
            ap (λ x. x.1)
              (fires-quiet created added n (reset (next_round t)) (g t.user_data t.tid s).1
                (reset-none (next_round t))))
        | inr on ↦ rw on (
            callback-fires n left (next_round t) g (g t.user_data t.tid s).1
              (next_round-Waits t callback left w) e (omega arith))
      ])

-- After `startCB` on an idle timer, where libevent makes and adds the event, the callback runs once for each time that the event becomes active, with the data
-- and the id that were given, until it returns -1, and then never again; this holds for the
-- 2 ^ 32 - 1 rounds that `startForever` asks for.
pub start_cb-fires :
    {S : Type 0} (created added : Bool) (interval : ℕ) (g : ℕ → ℕ → S → ℤ × S) (user_data tid : ℕ)
    (t : Timer S) (s : S) (n : ℕ)
    → t.event ≡ none
    → n < 2 ^ 32
    → let (ok, t') = start_cb true true interval g user_data tid t in
      (ok ≡ true) × ((fires created added n (t', s)).1 ≡ run_until n (g user_data tid) s)
unfolding start_cb start_forever
start_cb-fires {S} created added interval g user_data tid t s n idle few =
    let t₀ : Timer S = record t { user_data = user_data; cb_handler = some g; tid = tid } in
    rw (start_rounds-none true true interval (2 ^ 32 - 1) callback t₀ idle) (
      refl,
      callback-fires created added n (2 ^ 32 - 2) (started interval (2 ^ 32 - 1) callback t₀) g s
          (started-Waits interval (2 ^ 32 - 2) callback t₀ (omega arith)) refl (omega arith),
    )
