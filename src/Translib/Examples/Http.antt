-- ===== src/Translib/Examples/Http.antt =====
-- Runs of the HTTP server with two handlers and of a loop with frames, and the theorems there.
use dbwrapper.Prelude.{
  ℕ, ◌+◌, ◌-◌, ◌≡◌, Bool, true, false, List, [], ◌∷◌, none, codes, if◌then◌else◌,
}
use dbwrapper.Prelude.Order.{string_eqb}
use dbwrapper.Translib.Timer.{is_finished, fires}
use dbwrapper.Translib.Timer.Rounds.{times}
use dbwrapper.Translib.Loop.{Loop, init}
use dbwrapper.Translib.FrameLoop.{new_frame_loop, set_frame_interval, run_frames}
use dbwrapper.Translib.FrameLoop.Frames.{run_frames-fires}
use dbwrapper.Translib.HttpServer.{Evhttp, HttpRequest, HttpHandler, set_body}

abbrev idle_loop : Loop
idle_loop = record { id = 1; thread = none; status = init; breaks = [] }

run_frames-fires_example :
    let t =
      (run_frames true true
        (λ s. s + 1)
        (set_frame_interval 20 (new_frame_loop idle_loop))).frame_timer in
    ((fires true true 3 (t, 4)).1 ≡ times 3 (λ s. s + 1) 4)
    × (is_finished (fires true true 3 (t, 4)).0 ≡ false)
run_frames-fires_example = run_frames-fires idle_loop 20 (λ s. s + 1) 4 3

abbrev has_path : List ℕ → List (List ℕ) → Bool
has_path path [] = false
has_path path (p ∷ ps) = let rest = has_path path ps in if string_eqb path p then true else rest

-- Without any headers.
abbrev path_list : Evhttp (List (List ℕ)) ℕ
path_list = record {
  set_cb = λ path paths. path ∷ paths;
  routed = has_path;
  find_header = λ key h. none;
  add_header = λ key value h. h + 1;
  remove_header = λ key h. h - 1;
  printf = λ text. text;
}

abbrev greet : HttpHandler ℕ
greet r = set_body path_list (codes "hello") r

abbrev a_request : HttpRequest ℕ
a_request = record { input_headers = 0; output_headers = 0; buffer = []; sent = [] }

abbrev two_handlers : List (List ℕ × HttpHandler ℕ)
two_handlers = (codes "/a", λ r. r) ∷ (codes "/a", greet) ∷ []
