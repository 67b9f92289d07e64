-- ===== src/Translib/FrameLoop/Frames.antt =====
-- How often a loop runs its frame.
use dbwrapper.Prelude.{none, ℕ, ◌-◌, ◌^◌, ◌≡◌, true, leb, if◌then◌else◌, arith}
use dbwrapper.Translib.Loop.{Loop}
use dbwrapper.Translib.Timer.{is_finished, start_forever, new_timer, fires}
use dbwrapper.Translib.Timer.Rounds.{times, start_rounds-fires}
use dbwrapper.Translib.FrameLoop.{
  FrameLoop, new_frame_loop, set_frame_interval, before_frames, run_frames,
}

set_frame_interval-event :
    (S : Type 0) (l : Loop) (interval : ℕ)
    → (set_frame_interval interval (new_frame_loop {S = S} l)).frame_timer.event ≡ none
unfolding set_frame_interval new_frame_loop new_timer
set_frame_interval-event S l interval = ground arith

-- A new loop that runs calls `onFrame` once for each event of its timer, whatever its interval was set
-- to; but it does so 2^32 - 1 times only, and then never again.
pub run_frames-fires :
    {S : Type 0} (l : Loop) (interval : ℕ) (on_frame : S → S) (s : S) (n : ℕ)
    → let t =
        (run_frames true true on_frame
          (set_frame_interval interval (new_frame_loop l))).frame_timer in
      ((fires true true n (t, s)).1
        ≡ times (if leb n (2 ^ 32 - 1) then n else 2 ^ 32 - 1) on_frame s)
      × (is_finished (fires true true n (t, s)).0 ≡ leb (2 ^ 32 - 1) n)
unfolding run_frames before_frames start_forever
run_frames-fires {S} l interval on_frame s n =
    let ready : FrameLoop S = set_frame_interval interval (new_frame_loop l) in
    let (_, runs, ends) =
      start_rounds-fires true true ready.frame_interval (2 ^ 32 - 1) on_frame ready.frame_timer s n
        (set_frame_interval-event S l interval) (omega arith) (omega arith) in
    (runs, ends)
