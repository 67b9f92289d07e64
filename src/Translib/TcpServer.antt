-- ===== src/Translib/TcpServer.antt =====
-- src/translib/tcpSession.cpp, src/translib/tcpServerDispatcher.cpp and src/translib/tcpServer.cpp: a
-- server that hands each connection to the loop of one of its dispatchers. A socket is a number, or
-- none for SOCKET_FD_INVALID; `Libevent` says what it does with a new socket; the callbacks of the
-- server, which its user writes, are the `notes`.
pub mod Sessions
pub mod Routing
pub mod Told
pub mod Events
pub mod Histories
use dbwrapper.Prelude.{
  ℕ, zero, suc, ◌+◌, ◌%◌, ◌^◌, Bool, true, false, List, [], ◌∷◌, ◌++◌, Option, none, some,
  if◌then◌else◌, remove_if, ◌==◌, length,
}
use dbwrapper.Translib.Loop.{Loop, start, stop, wait}

-- Whether `bufferevent_socket_new` and `bufferevent_enable` succeed for a socket.
pub record Libevent : Type 0 where
  pub makes : ℕ → Bool
  pub enables : ℕ → Bool

-- `onNewSession`, `onSessionRead` and `onSessionDisconnected`, with the id of the session.
pub data Note : Type 0 where
  new_session session_read session_disconnected : ℕ → Note

pub record TcpSession : Type 0 where
  pub id : ℕ
  -- Whether there is a bufferevent.
  pub bev : Bool

abbrev pub new_session_object : TcpSession
new_session_object = record { id = 0; bev = false }

pub record SessionAction : Type 0 where
  pub id : ℕ
  pub sock : Option ℕ

pub record Dispatcher : Type 0 where
  pub loop : Loop
  pub sessions : List (ℕ × TcpSession)
  pub actions : List SessionAction
  pub notes : List Note

abbrev pub session_at : ℕ → List (ℕ × TcpSession) → Option TcpSession
session_at id [] = none
session_at id (e ∷ m) = let rest = session_at id m in if id == e.0 then some e.1 else rest

-- `getSession`
unfoldable pub get_session : ℕ → Dispatcher → Option TcpSession
get_session id d = session_at id d.sessions

-- `addSession`
unfoldable pub add_session : ℕ → Option ℕ → Dispatcher → Dispatcher
add_session id sock d = record d { actions = d.actions ++ record { id = id; sock = sock } ∷ [] }

-- `removeSession`
unfoldable pub remove_session : ℕ → Dispatcher → Dispatcher
remove_session id d = record d { actions = d.actions ++ record { id = id; sock = none } ∷ [] }

-- `attach`
unfoldable pub attach :
    Libevent → ℕ → Option ℕ → TcpSession → Dispatcher → Bool × (TcpSession × Dispatcher)
attach ev id none s d = (false, (record s { id = id }, d))
attach ev id (some sock) s d =
    if ev.makes sock
    then (if ev.enables sock
        then (
          true,
          (record { id = id; bev = true }, record d { notes = d.notes ++ new_session id ∷ [] }),
        )
        else (false, (record { id = id; bev = false }, d)))
    else (false, (record { id = id; bev = false }, d))

-- `onRead` of a session.
unfoldable pub on_read : TcpSession → Dispatcher → Dispatcher
on_read s d = record d { notes = d.notes ++ session_read s.id ∷ [] }

-- `handleEvent` of a session.
unfoldable pub handle_event : TcpSession → Dispatcher → Dispatcher
unfolding remove_session
handle_event s d =
    remove_session s.id (record d { notes = d.notes ++ session_disconnected s.id ∷ [] })

-- The body of the loop of `onFrame`.
unfoldable pub run_action : Libevent → SessionAction → Dispatcher → Dispatcher
unfolding attach
run_action ev action d = elim action.sock [
  | none ↦ record d { sessions = remove_if (λ e. e.0 == action.id) d.sessions }
  | some sock ↦
      let (ok, (s, d')) = attach ev action.id (some sock) new_session_object d in
      if ok
      then record d' { sessions = (s.id, s) ∷ remove_if (λ e. e.0 == s.id) d'.sessions }
      else d'
]

unfoldable pub run_actions : Libevent → List SessionAction → Dispatcher → Dispatcher
unfolding run_action
run_actions ev [] d = d
run_actions ev (a ∷ as_) d = run_actions ev as_ (run_action ev a d)

-- `onFrame`
unfoldable pub on_frame : Libevent → Dispatcher → Dispatcher
unfolding run_actions
on_frame ev d = run_actions ev d.actions (record d { actions = [] })

-- `listener` is whether there is an `_eventListener`.
pub record TcpServer : Type 0 where
  pub listener : Bool
  pub master : Dispatcher
  pub slavers : List Dispatcher
  pub session_id_generator : ℕ

abbrev pub at_index : ℕ → List Dispatcher → Option Dispatcher
at_index n [] = none
at_index zero (d ∷ ds) = some d
at_index (suc n) (d ∷ ds) = at_index n ds

abbrev pub adjust_at : ℕ → (Dispatcher → Dispatcher) → List Dispatcher → List Dispatcher
adjust_at n f [] = []
adjust_at zero f (d ∷ ds) = f d ∷ ds
adjust_at (suc n) f (d ∷ ds) = d ∷ adjust_at n f ds

-- `getSessionDispatcher`
unfoldable pub get_session_dispatcher : ℕ → TcpServer → Option Dispatcher
get_session_dispatcher id s =
    if length s.slavers == 0 then some s.master else at_index (id % length s.slavers) s.slavers

-- A change of the dispatcher that `getSessionDispatcher` returns.
unfoldable pub with_dispatcher : ℕ → (Dispatcher → Dispatcher) → TcpServer → TcpServer
with_dispatcher id f s =
    if length s.slavers == 0
    then record s { master = f s.master }
    else record s { slavers = adjust_at (id % length s.slavers) f s.slavers }

-- `listenEventCallback`, with the id that it gives.
unfoldable pub listen_event_callback : ℕ → TcpServer → ℕ × TcpServer
unfolding with_dispatcher add_session
listen_event_callback sock s =
    let id = (s.session_id_generator + 1) % 2 ^ 64 in
    (id, with_dispatcher id (add_session id (some sock)) (record s { session_id_generator = id }))

abbrev pub with_loop : (Loop → Loop) → Dispatcher → Dispatcher
with_loop f d = record d { loop = f d.loop }

-- `setThreads`, given the dispatchers that it makes.
unfoldable pub set_threads : List Dispatcher → TcpServer → TcpServer
set_threads made s = elim s.slavers [ [] ↦ record s { slavers = made } | _ ∷ _ ↦ s ]

-- `TcpServer()`, given its dispatchers and the value of `s_sessionIdGenerator`.
unfoldable pub new_server : Dispatcher → List Dispatcher → ℕ → TcpServer
unfolding set_threads
new_server master made generator =
    set_threads made
      (record { listener = false; master = master; slavers = []; session_id_generator = generator })

abbrev pub all_loops : (Loop → Loop) → List Dispatcher → List Dispatcher
all_loops f [] = []
all_loops f (d ∷ ds) = with_loop f d ∷ all_loops f ds

abbrev pub started : Loop → Loop
started l = (start true l).1

-- `listen`, where `bound` is whether `evconnlistener_new_bind` succeeds.
unfoldable pub listen : Bool → TcpServer → Bool × TcpServer
unfolding start
listen false s = (false, record s { listener = false })
listen true s =
    if (start true s.master.loop).0
    then (
      true,
      record s {
        listener = true;
        master = with_loop started s.master;
        slavers = all_loops started s.slavers;
      },
    )
    else (false, record s { listener = false })

-- `stop` and `wait` of the server.
unfoldable pub stop_server : TcpServer → TcpServer
unfolding stop
stop_server s = record s {
  master = with_loop (stop true) s.master;
  slavers = all_loops (stop true) s.slavers;
}

unfoldable pub wait_server : TcpServer → TcpServer
unfolding wait
wait_server s = record s { master = with_loop wait s.master; slavers = all_loops wait s.slavers }
