-- ===== src/Translib/Timer/Starts.antt =====
-- What a start of a timer does where it succeeds and where it fails.
use dbwrapper.Prelude.{
  ℕ, ◌+◌, ◌*◌, ◌<◌, ◌≡◌, Bool, true, false, ◌&&◌, none, some, arith, if◌then◌else◌,
}
use dbwrapper.Translib.Timer.{Timer, Handler, new_event, reset, start_rounds}

-- Whether a timer has an event.
abbrev pub is_idle : {S : Type 0} → Timer S → Bool
is_idle t = elim t.event [ none ↦ true | some _ ↦ false ]

-- `startRounds` returns true exactly when the timer was idle and libevent made and added the event.
-- Then the timer has that event and the new handler; otherwise its event and its handler are those
-- that it had.
pub start_rounds_lem :
    {S : Type 0} (created added : Bool) (interval round : ℕ) (h : Handler S) (t : Timer S)
    → let (ok, t') = start_rounds created added interval round h t in
      (ok ≡ (is_idle t && (created && added)))
      × (t'.event ≡ (if ok then some (new_event interval round) else t.event))
      × (t'.handler ≡ (if ok then some h else t.handler))
unfolding start_rounds reset
start_rounds_lem created added interval round h t = ground arith

-- The seconds and microseconds that the event is given make up the milliseconds of the interval,
-- with less than a second of microseconds.
pub new_event-period :
    (interval round : ℕ)
    → let e = new_event interval round in
      (e.tv_sec * 1000000 + e.tv_usec ≡ interval * 1000) × (e.tv_usec < 1000000)
unfolding new_event
new_event-period interval round = (omega arith, omega arith)
