-- ===== src/Translib/Examples/Server.antt =====
-- Runs of a loop and of a server with two dispatchers, and the theorems there.
use dbwrapper.Prelude.{
  ℕ, ◌*◌, not, ◌&&◌, ◌≡◌, refl, Bool, true, false, [], ◌∷◌, none, some, ◌==◌, if◌then◌else◌,
}
use dbwrapper.Translib.Loop.{Loop, Registry, init, get, run_begin, run_end, start, destroy}
use dbwrapper.Translib.TcpServer.{
  Libevent, Dispatcher, TcpServer, get_session, on_frame, with_dispatcher, get_session_dispatcher,
  listen_event_callback,
}
use dbwrapper.Translib.TcpClient.{Event, new_client}
use dbwrapper.Translib.TcpClient.Tidy.{connects, event, client_run, disconnects, client_run-tidy}
use dbwrapper.Translib.Loop.Lives.{stops, destroy-raced}
use dbwrapper.Translib.TcpServer.Routing.{listen_event_callback-served}

abbrev new_loop_object : Loop
new_loop_object = record { id = 3; thread = none; status = init; breaks = [] }

abbrev a_registry : Registry
a_registry = record { loops = (3, 40) ∷ (2, 50) ∷ []; id_generater = 3 }

abbrev willing : Libevent
willing = record { makes = λ sock. true; enables = λ sock. sock == 7 }

abbrev new_dispatcher : Dispatcher
new_dispatcher = record { loop = new_loop_object; sessions = []; actions = []; notes = [] }

abbrev a_server : TcpServer
a_server = record {
  listener = true;
  master = new_dispatcher;
  slavers = new_dispatcher ∷ new_dispatcher ∷ [];
  session_id_generator = 4;
}

abbrev busy_dispatcher : Dispatcher
busy_dispatcher = record new_dispatcher {
  sessions = (5, record { id = 5; bev = true }) ∷ [];
  actions = record { id = 5; sock = none } ∷ record { id = 7; sock = some 7 } ∷ [];
}

listen_event_callback-served_example :
    (d : Dispatcher) × (get_session_dispatcher 5
        (with_dispatcher 5 (on_frame willing) (listen_event_callback 7 a_server).1)
      ≡ some d)
    × (get_session 5 d ≡ some (record { id = 5; bev = true }))
unfolding listen_event_callback
listen_event_callback-served_example = listen_event_callback-served willing 7 a_server refl refl

destroy-raced_example :
    let begun = stops (true ∷ []) (run_begin (start true new_loop_object).1) in
    ((r' : Registry) × (destroy false begun a_registry ≡ some r')
      × ((j : ℕ) → get j r' ≡ (if j == 3 then none else get j a_registry)))
    × (destroy true begun a_registry ≡ none)
    × ((ended : Bool) → destroy ended (run_end begun) a_registry ≡ none)
unfolding start
destroy-raced_example = destroy-raced new_loop_object (true ∷ []) a_registry refl

abbrev lost : Event
lost = record {
  eof = true;
  error = false;
  timeout = false;
  connected = false;
  socket_error = 0;
  is_refused = false;
}

client_run-tidy_example :
    let s = client_run (connects true true true ∷ event lost ∷ []) new_client in
    (s.live ≡ (if s.bev then 1 else 0))
    × ((s.is_connected && not s.bev) ≡ false)
    × (s.closes ≡ 2 * disconnects s.notes)
client_run-tidy_example = client_run-tidy (connects true true true ∷ event lost ∷ [])
