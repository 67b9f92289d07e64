-- ===== src/Translib/FrameLoop.antt =====
-- src/translib/frameLoop.cpp: `FrameLoop`, a loop whose timer runs `onFrame`. The function is given, as
-- a subclass may write it, on a state `S`.
pub mod Frames
use dbwrapper.Prelude.{ℕ, ◌==◌, Bool, if◌then◌else◌}
use dbwrapper.Translib.Loop.{Loop, run_begin}
use dbwrapper.Translib.Timer.{Timer, plain, new_timer, start_forever}

pub record FrameLoop (S : Type 0) : Type 0 where
  pub loop : Loop
  pub frame_timer : Timer S
  pub frame_interval : ℕ

module _ {S : Type 0} where
  -- `FrameLoop()`
  unfoldable pub new_frame_loop : Loop → FrameLoop S
  unfolding new_timer
  new_frame_loop l = record { loop = l; frame_timer = new_timer; frame_interval = 10 }

  unfoldable pub set_frame_interval : ℕ → FrameLoop S → FrameLoop S
  set_frame_interval interval l =
      if interval == 0 then l else record l { frame_interval = interval }

  unfoldable pub cur_frame_round : FrameLoop S → ℕ
  cur_frame_round l = l.frame_timer.cur_round

  -- `onBeforeLoop`, given whether libevent makes and adds the event.
  unfoldable pub before_frames : Bool → Bool → (S → S) → FrameLoop S → FrameLoop S
  unfolding start_forever
  before_frames created added on_frame l = record l {
    frame_timer = (start_forever created added l.frame_interval (plain on_frame) l.frame_timer).1;
  }

  -- The start of `_run`.
  unfoldable pub run_frames : Bool → Bool → (S → S) → FrameLoop S → FrameLoop S
  unfolding before_frames run_begin
  run_frames created added on_frame l =
      before_frames created added on_frame (record l { loop = run_begin l.loop })
