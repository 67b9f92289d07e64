-- ===== src/Heartbeat.antt =====
-- include/heartbeat/heartbeat.h: the rounds of a heartbeat. The callbacks and the ping act on a state
-- `S`; the ping may set the flag `success` before the next round.
pub mod Verdicts
mod Timing
mod Examples
use dbwrapper.Translib.Timer.{Timer, plain, start_forever, reset}
use dbwrapper.Prelude.{ℕ, Bool, true, false, List, [], ◌∷◌, Option, none, some}

pub record Heartbeat (S : Type 0) : Type 0 where
  pub interval : ℕ
  -- `s_cb` and `l_cb`, or none if they are not set.
  pub success_cb : Option (S → S)
  pub lost_cb : Option (ℕ → S → S)

module _ {S : Type 0} where
  -- `heartbeat()`
  unfoldable pub new_heartbeat : Heartbeat S
  new_heartbeat = record { interval = 5000; success_cb = none; lost_cb = none }

  unfoldable pub on_heartbeat_lost : Heartbeat S → S → S
  on_heartbeat_lost h s = elim h.lost_cb [ none ↦ s | some f ↦ f 400 s ]

  unfoldable pub on_heartbeat_success : Heartbeat S → S → S
  on_heartbeat_success h s = elim h.success_cb [ none ↦ s | some f ↦ f s ]

  -- The lambda that `start` gives to the timer, on the flag and the state: the callback, then the
  -- ping with a flag that is false.
  unfoldable pub beat : Heartbeat S → (Bool × S → Bool × S) → Bool × S → Bool × S
  unfolding on_heartbeat_success on_heartbeat_lost
  beat h ping (true, s) = ping (false, on_heartbeat_success h s)
  beat h ping (false, s) = ping (false, on_heartbeat_lost h s)

  -- `start`, given whether libevent makes and adds the event.
  unfoldable pub start_heartbeat :
      Bool → Bool → Heartbeat S → (Bool × S → Bool × S) → Timer (Bool × S) → Timer (Bool × S)
  unfolding beat start_forever
  start_heartbeat created added h ping t =
      (start_forever created added h.interval (plain (beat h ping)) t).1

  -- `~heartbeat()`, which stops the timer.
  unfoldable pub stop_heartbeat : Timer (Bool × S) → Timer (Bool × S)
  unfolding reset
  stop_heartbeat t = reset t

  unfoldable pub set_interval : ℕ → Heartbeat S → Heartbeat S
  set_interval iv h = record h { interval = iv }

  unfoldable pub set_hb_success_cb : (S → S) → Heartbeat S → Heartbeat S
  set_hb_success_cb cb h = record h { success_cb = some cb }

  unfoldable pub set_hb_lost_cb : (ℕ → S → S) → Heartbeat S → Heartbeat S
  set_hb_lost_cb cb h = record h { lost_cb = some cb }
