-- ===== src/Translib/Examples.antt =====
-- Timers, their manager and the framing of packets on small inputs, and the theorems there.
mod Server
mod Http
mod Timers
mod EventFd
mod Sessions
use dbwrapper.Prelude.{
  ℕ, ◌+◌, ◌*◌, ◌<◌, ◌≡◌, refl, Bool, true, false, ◌&&◌, List, [], ◌∷◌, ◌++◌, map, Option, none,
  some, arith, leb, ◌==◌, if◌then◌else◌, ℤ, pos, negsuc, length, take, drop,
}
use dbwrapper.Translib.Timer.{
  plain, new_timer, new_event, is_finished, start_rounds, start_after, start_cb, fires,
}
use dbwrapper.Translib.Timer.Rounds.{times, start_rounds-fires, start_after-fires}
use dbwrapper.Translib.Timer.Callbacks.{run_until, start_cb-fires}
use dbwrapper.Translib.Timer.Starts.{is_idle, start_rounds_lem, new_event-period}
use dbwrapper.Translib.TimerManager.{TimerManager, find, get_timer, audit_timer, kill_timer}
use dbwrapper.Translib.TimerManager.Lookup.{
  HasFreshIds, get_timer-find, audit_timer-find, kill_timer-find,
}
use dbwrapper.Translib.Tpkt.{Evbuffer, tpkt_header, send_with_tpkt, on_session_read}
use dbwrapper.Translib.Tpkt.RoundTrip.{IsEvbuffer, frame, message}
use dbwrapper.Translib.Tpkt.Streaming.{read_pieces, send_packets, read_pieces-send_packets}
use mathlib.Core.List.{flatten}
use dbwrapper.Translib.TcpSocket.{
  TcpSocket, send, close, SocketEvent, writes_out, write_callback, sends, on_events,
}
use dbwrapper.Translib.TcpSocket.Closing.{is_drained, close-drained, close-send}
use dbwrapper.Translib.Tpkt.Client.{invalid, on_read, on_read-overruns, on_read-partial_header}
use dbwrapper.Translib.Tpkt.Edges.{send_with_tpkt-frame, on_session_read-endless}

abbrev count : ℕ → ℕ
count s = s + 1

start_rounds-fires_example :
    let (ok, t') = start_rounds true true 5000 3 (plain count) new_timer in
    (ok ≡ true)
    × ((fires true true 4 (t', 0)).1 ≡ times 3 count 0)
    × (is_finished (fires true true 4 (t', 0)).0 ≡ true)
unfolding new_timer
start_rounds-fires_example =
    start_rounds-fires true true 5000 3 count new_timer 0 4 refl (omega arith) (omega arith)

-- A callback that counts, and stops at the number that it was given.
abbrev up_to : ℕ → ℕ → ℕ → ℤ × ℕ
up_to user_data tid s = (if leb user_data s then negsuc 0 else pos 0, s + 1)

start_cb-fires_example :
    let (ok, t') = start_cb true true 5000 up_to 2 9 new_timer in
    (ok ≡ true) × ((fires true true 6 (t', 0)).1 ≡ run_until 6 (up_to 2 9) 0)
unfolding new_timer
start_cb-fires_example = start_cb-fires true true 5000 up_to 2 9 new_timer 0 6 refl (omega arith)

abbrev two_timers : TimerManager
two_timers = record { unique_id = 3; t_map = (2, 800) ∷ (1, 700) ∷ [] }

two_timers-HasFreshIds : HasFreshIds two_timers
two_timers-HasFreshIds = record {
  keys = (((λ e. omega arith), tt), (tt, tt));
  below = (omega arith, (omega arith, tt));
}

-- A buffer that is the list of its bytes.
abbrev first_four : List ℕ → Option (ℕ × ℕ × ℕ × ℕ)
first_four [] = none
first_four (a ∷ []) = none
first_four (a ∷ b ∷ []) = none
first_four (a ∷ b ∷ c ∷ []) = none
first_four (a ∷ b ∷ c ∷ d ∷ _) = some (a, b, c, d)

abbrev list_buffer : Evbuffer (List ℕ)
list_buffer = record {
  get_length = length;
  pullup = first_four;
  remove = λ n b. some (take n b, drop n b);
}

first_four-none : (b : List ℕ) → length b < 4 → first_four b ≡ none
first_four-none [] few = refl
first_four-none (b₀ ∷ []) few = refl
first_four-none (b₀ ∷ b₁ ∷ []) few = refl
first_four-none (b₀ ∷ b₁ ∷ b₂ ∷ []) few = refl
first_four-none (b₀ ∷ b₁ ∷ b₂ ∷ b₃ ∷ bs) few = ground arith

list_buffer-IsEvbuffer : IsEvbuffer list_buffer (λ b. b)
list_buffer-IsEvbuffer = record {
  length_bytes = λ b. refl;
  pullup_none = first_four-none;
  pullup_some = λ b b₀ b₁ b₂ b₃ rest e. rw e refl;
  remove_some = λ n b le. (drop n b, refl, refl);
}

abbrev two_payloads : List (List ℕ)
two_payloads = (7 ∷ 8 ∷ []) ∷ (9 ∷ []) ∷ []

-- A send that always appends to the wire.
abbrev append_send : List ℕ → List ℕ → Bool × List ℕ
append_send bs w = (true, w ++ bs)

-- A header in two pieces, and a piece with the end of one packet and all of the next.
abbrev three_pieces : List (List ℕ)
three_pieces = (1 ∷ 0 ∷ []) ∷ (0 ∷ 6 ∷ 7 ∷ []) ∷ (8 ∷ 1 ∷ 0 ∷ 0 ∷ 5 ∷ 9 ∷ []) ∷ []

read_pieces-send_packets_example :
    (b' : List ℕ) × (read_pieces list_buffer (λ c b. b ++ c) 3 three_pieces []
      ≡ some (map message two_payloads, b'))
    × (b' ≡ [])
unfolding send_packets send_with_tpkt tpkt_header flatten
read_pieces-send_packets_example =
    read_pieces-send_packets append_send (λ w. w) list_buffer (λ b. b) (λ c b. b ++ c) 3
      two_payloads three_pieces [] [] (λ bs w sent. refl) list_buffer-IsEvbuffer (λ c b. refl) refl
      refl refl refl (omega arith, (omega arith, tt)) (omega arith) (omega arith)

on_session_read-endless_example : on_session_read list_buffer 1000 (1 ∷ 0 ∷ 0 ∷ 0 ∷ 5 ∷ []) ≡ none
on_session_read-endless_example =
    on_session_read-endless list_buffer (λ b. b) 1000 (1 ∷ 0 ∷ 0 ∷ 0 ∷ 5 ∷ []) (5 ∷ [])
      list_buffer-IsEvbuffer refl (omega arith)

on_read-overruns_example : on_read list_buffer 3 (frame (7 ∷ 8 ∷ []) ++ (1 ∷ [])) ≡ invalid []
unfolding tpkt_header
on_read-overruns_example =
    on_read-overruns list_buffer (λ b. b) list_buffer-IsEvbuffer 2 (frame (7 ∷ 8 ∷ []) ++ (1 ∷ []))
      (7 ∷ 8 ∷ []) (1 ∷ []) refl (omega arith) (omega arith) (omega arith)

abbrev busy_socket : TcpSocket
busy_socket = record { bev = true; is_closing = false; input = 6; output = 10; shut = false }

-- The callback runs early once, and again when all is written.
abbrev some_events : List SocketEvent
some_events = writes_out 4 ∷ write_callback ∷ sends true 3 ∷ writes_out 6 ∷ write_callback ∷ []

close-drained_example :
    (on_events some_events (close true busy_socket)).shut
    ≡ (if 10 == 0 then true else is_drained 10 some_events)
close-drained_example = close-drained busy_socket some_events refl refl
