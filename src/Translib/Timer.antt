-- ===== src/Translib/Timer.antt =====
-- include/translib/timer.h and src/translib/timer.cpp: `Timer`.
-- libevent keeps the event: what `event_new` and `event_add` return is an argument (`created`,
-- `added`), and `fire` is libevent calling `eventHandler` for the event of the timer, if it has one.
-- A handler changes a state `S`. Of the handlers that use the timer again, those are modelled that
-- the class itself makes, for `startAfter` and `startCB`.
pub mod Rounds
pub mod Callbacks
pub mod Starts
use dbwrapper.Prelude.{
  ℕ, zero, suc, ◌+◌, ◌-◌, ◌*◌, ◌%◌, ◌^◌, ◌/◌, Bool, true, false, ◌&&◌, Option, none, some, leb, ltb,
  if◌then◌else◌, ℤ, negsuc, int_eqb,
}

-- What libevent keeps: the flag EV_PERSIST and the period.
pub record Event : Type 0 where
  pub persist : Bool
  pub tv_sec : ℕ
  pub tv_usec : ℕ

-- The event that `event_new` and `event_add` make.
unfoldable pub new_event : ℕ → ℕ → Event
new_event interval round = record {
  persist = ltb 1 round;
  tv_sec = interval / 1000;
  tv_usec = interval % 1000 * 1000;
}

-- A handler of the user, and the two lambdas of the class.
pub data Handler (S : Type 0) : Type 0 where
  plain : (S → S) → Handler S
  then_rounds : ℕ → ℕ → (S → S) → Handler S
  callback : Handler S

pub record Timer (S : Type 0) : Type 0 where
  pub event : Option Event
  pub interval : ℕ
  pub round : ℕ
  pub cur_round : ℕ
  pub handler : Option (Handler S)
  pub user_data : ℕ
  pub cb_handler : Option (ℕ → ℕ → S → ℤ × S)
  pub tid : ℕ

module _ {S : Type 0} where
  -- `Timer(loop)`
  unfoldable pub new_timer : Timer S
  new_timer = record {
    event = none;
    interval = 0;
    round = 1;
    cur_round = 0;
    handler = none;
    user_data = 0;
    cb_handler = none;
    tid = 0;
  }

  -- `isFinished`
  unfoldable pub is_finished : Timer S → Bool
  is_finished t = leb t.round t.cur_round

  -- `reset`, which `stop` and the destructor call.
  unfoldable pub reset : Timer S → Timer S
  reset t = elim t.event [
    | none ↦ t
    | some _ ↦ record t { event = none; cur_round = (t.round + 1) % 2 ^ 64 }
  ]

  unfoldable pub start_rounds : Bool → Bool → ℕ → ℕ → Handler S → Timer S → Bool × Timer S
  unfolding new_event reset
  start_rounds created added interval round handler t = elim t.event [
    | some _ ↦ (false, t)
    | none ↦
        if created
        then (let t' = record t { event = some (new_event interval round) } in
            if added
            then (
              true,
              record t' {
                interval = interval;
                round = round;
                cur_round = 0;
                handler = some handler;
              },
            )
            else (false, reset t'))
        else (false, t)
  ]

  unfoldable pub start_once : Bool → Bool → ℕ → Handler S → Timer S → Bool × Timer S
  unfolding start_rounds
  start_once created added interval handler t = start_rounds created added interval 1 handler t

  -- `uint32_t(-1)` rounds.
  unfoldable pub start_forever : Bool → Bool → ℕ → Handler S → Timer S → Bool × Timer S
  unfolding start_rounds
  start_forever created added interval handler t =
      start_rounds created added interval (2 ^ 32 - 1) handler t

  unfoldable pub start_after : Bool → Bool → ℕ → ℕ → ℕ → (S → S) → Timer S → Bool × Timer S
  unfolding start_once
  start_after created added after interval round handler t =
      start_once created added after (then_rounds interval round handler) t

  -- The callback is replaced whether or not the timer starts.
  unfoldable pub start_cb : Bool → Bool → ℕ → (ℕ → ℕ → S → ℤ × S) → ℕ → ℕ → Timer S → Bool × Timer S
  unfolding start_forever
  start_cb created added interval handler user_data tid t =
      start_forever created added interval callback
        (record t { user_data = user_data; cb_handler = some handler; tid = tid })

  -- The lambda of `startCB`, which has set `cb_handler`.
  unfoldable pub run_callback : Option (ℕ → ℕ → S → ℤ × S) → Timer S → S → Timer S × S
  unfolding reset
  run_callback none t s = (t, s)
  run_callback (some f) t s =
      let (ret, s') = f t.user_data t.tid s in (if int_eqb ret (negsuc 0) then reset t else t, s')

  -- `handler()`, with what libevent returns to a `startRounds` in it.
  unfoldable pub run_handler : Bool → Bool → Option (Handler S) → Timer S → S → Timer S × S
  unfolding start_rounds run_callback
  run_handler created added none t s = (t, s)
  run_handler created added (some (plain f)) t s = (t, f s)
  run_handler created added (some (then_rounds interval round f)) t s =
      ((start_rounds created added interval round (plain f) t).1, s)
  run_handler created added (some callback) t s = run_callback t.cb_handler t s

  -- `eventHandler`
  unfoldable pub event_handler : Bool → Bool → Timer S → S → Timer S × S
  unfolding reset run_handler
  event_handler created added t s =
      let t' = record t { cur_round = (t.cur_round + 1) % 2 ^ 64 } in
      run_handler created added t.handler (if leb t'.round t'.cur_round then reset t' else t') s

  -- The event of the timer becomes active. One that is not persistent is deleted by its first run.
  unfoldable pub fire : Bool → Bool → Timer S × S → Timer S × S
  unfolding event_handler
  fire created added (t, s) = elim t.event [
    | none ↦ (t, s)
    | some _ ↦ event_handler created added t s
  ]

  -- `n` times in a row.
  unfoldable pub fires : Bool → Bool → ℕ → Timer S × S → Timer S × S
  unfolding fire
  fires created added zero x = x
  fires created added (suc n) x = fires created added n (fire created added x)
