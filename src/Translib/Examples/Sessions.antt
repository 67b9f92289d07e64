-- ===== src/Translib/Examples/Sessions.antt =====
-- A connection to a server with two dispatchers, and the theorem there.
use dbwrapper.Prelude.{ℕ, ◌≡◌, ◌≤◌, refl, true, [], ◌∷◌, none, some, arith, All}
use dbwrapper.Translib.Loop.{init}
use dbwrapper.Translib.TcpServer.{
  Libevent, Dispatcher, TcpServer, TcpSession, new_session, session_read, get_session, on_read,
  on_frame, with_dispatcher, get_session_dispatcher, listen_event_callback, new_server,
}
use dbwrapper.Translib.TcpServer.Told.{news, IsOrderly}
use dbwrapper.Translib.TcpServer.Histories.{
  ServerReach, here, next, accepts, runs_frame, reads, ServerReach-told,
}

abbrev willing : Libevent
willing = record { makes = λ sock. true; enables = λ sock. true }

abbrev idle : Dispatcher
idle = record {
  loop = record { id = 3; thread = none; status = init; breaks = [] };
  sessions = [];
  actions = [];
  notes = [];
}

abbrev started : TcpServer
started = new_server idle (idle ∷ idle ∷ []) 4

abbrev accepted : TcpServer
accepted = (listen_event_callback 7 started).1

abbrev attached : TcpServer
attached = with_dispatcher 5 (on_frame willing) accepted

abbrev session : TcpSession
session = record { id = 5; bev = true }

abbrev was_read : TcpServer
was_read = with_dispatcher 5 (on_read session) attached

abbrev holder : Dispatcher
holder = record idle { sessions = (5, session) ∷ []; notes = new_session 5 ∷ [] }

was_read-ServerReach : ServerReach willing started was_read
unfolding new_server listen_event_callback on_frame get_session_dispatcher get_session
was_read-ServerReach =
    next (next (next here (accepts started 7 (omega arith))) (runs_frame accepted 5))
      (reads attached 5 holder session refl refl)

ServerReach-told_example :
    IsOrderly [] (new_session 5 ∷ session_read 5 ∷ [])
    × (news 5 (new_session 5 ∷ session_read 5 ∷ []) ≤ 1)
    × All
        (λ (e : ℕ × TcpSession).
          (e.0 ≡ e.1.id)
          × (news e.0 (new_session 5 ∷ session_read 5 ∷ []) ≡ 1)
          × (get_session_dispatcher e.0 was_read ≡ some (on_read session holder)))
        ((5, session) ∷ [])
unfolding new_server listen_event_callback on_frame get_session_dispatcher on_read
ServerReach-told_example =
    ServerReach-told willing idle (idle ∷ idle ∷ []) 4 was_read 5 (on_read session holder) 5
      ((refl, refl, refl), ((refl, refl, refl), ((refl, refl, refl), tt))) was_read-ServerReach refl
