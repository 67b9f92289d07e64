-- ===== src/Heartbeat/Timing.antt =====
-- The timer of a heartbeat.
use dbwrapper.Prelude.{ℕ, ◌-◌, ◌^◌, ◌≡◌, Bool, true, leb, if◌then◌else◌, none, arith}
use dbwrapper.Translib.Timer.{Timer, fires, start_forever, is_finished}
use dbwrapper.Translib.Timer.Rounds.{times, start_rounds-fires}
use dbwrapper.Heartbeat.{Heartbeat, beat, start_heartbeat}

-- On an idle timer a heartbeat that starts runs a round for each event, and 2^32 - 1 rounds at most.
pub start_heartbeat-fires :
    {S : Type 0} (h : Heartbeat S) (ping : Bool × S → Bool × S) (t : Timer (Bool × S))
    (x : Bool × S) (n : ℕ)
    → t.event ≡ none
    → (fires true true n (start_heartbeat true true h ping t, x)).1
      ≡ times (if leb n (2 ^ 32 - 1) then n else 2 ^ 32 - 1) (beat h ping) x
unfolding start_heartbeat start_forever is_finished
start_heartbeat-fires h ping t x n e =
    (start_rounds-fires true true h.interval (2 ^ 32 - 1) (beat h ping) t x n e (omega arith)
      (omega arith)).1
