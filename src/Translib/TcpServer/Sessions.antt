-- ===== src/Translib/TcpServer/Sessions.antt =====
-- The sessions of one dispatcher after a frame.
use dbwrapper.Prelude.{
  ℕ, ◌≡◌, ◌∙◌, ap, refl, true, ◌&&◌, List, [], ◌∷◌, ◌++◌, Option, none, some, if◌then◌else◌,
  remove_if, ◌==◌, arith,
}
use dbwrapper.Translib.TcpServer.{
  Libevent, TcpSession, SessionAction, Dispatcher, session_at, get_session, remove_session,
  handle_event, attach, run_action, run_actions, on_frame,
}

session_at-remove :
    (id j : ℕ) (m : List (ℕ × TcpSession))
    → session_at j (remove_if (λ e. e.0 == id) m) ≡ (if j == id then none else session_at j m)
session_at-remove id j [] = ground arith
session_at-remove id j (e ∷ m) = ground (arith, session_at-remove id j m)

-- What the actions on an id, in their order, make of a session: a removal ends it, an addition begins it
-- unless libevent refuses the socket.
abbrev pub after_actions : Libevent → ℕ → List SessionAction → Option TcpSession → Option TcpSession
after_actions ev id [] s = s
after_actions ev id (a ∷ as_) s = after_actions ev id as_ (
    if id == a.id
    then elim a.sock [
      | none ↦ none
      | some sock ↦
          if ev.makes sock && ev.enables sock then some (record { id = id; bev = true }) else s
    ]
    else s)

run_action-session :
    (ev : Libevent) (id : ℕ) (a : SessionAction) (d : Dispatcher)
    → session_at id (run_action ev a d).sessions
      ≡ after_actions ev id (a ∷ []) (session_at id d.sessions)
unfolding run_action attach
run_action-session ev id a d = ground (arith, session_at-remove a.id id d.sessions)

run_actions-session :
    (ev : Libevent) (id : ℕ) (as_ : List SessionAction) (d : Dispatcher)
    → session_at id (run_actions ev as_ d).sessions
      ≡ after_actions ev id as_ (session_at id d.sessions)
unfolding run_actions
run_actions-session ev id [] d = refl
run_actions-session ev id (a ∷ as_) d =
    run_actions-session ev id as_ (run_action ev a d)
    ∙ ap (after_actions ev id as_) (run_action-session ev id a d)

-- After a frame, whether there is a session with an id follows from the actions on that id alone, in
-- the order of the queue.
pub on_frame-get_session :
    (ev : Libevent) (id : ℕ) (d : Dispatcher)
    → get_session id (on_frame ev d) ≡ after_actions ev id d.actions (get_session id d)
unfolding on_frame get_session
on_frame-get_session ev id d = run_actions-session ev id d.actions (record d { actions = [] })

-- Actions one after another.
pub after_actions-append :
    (ev : Libevent) (id : ℕ) (as_ bs : List SessionAction) (s : Option TcpSession)
    → after_actions ev id (as_ ++ bs) s ≡ after_actions ev id bs (after_actions ev id as_ s)
after_actions-append ev id [] bs s = refl
after_actions-append ev id (a ∷ as_) bs s = after_actions-append ev id as_ bs _

-- A session whose connection ends is gone after the next frame, whatever waited in the queue before.
pub handle_event-gone :
    (ev : Libevent) (s : TcpSession) (d : Dispatcher)
    → get_session s.id (on_frame ev (handle_event s d)) ≡ none
unfolding handle_event remove_session get_session
handle_event-gone ev s d =
    let ended = handle_event s d in
    on_frame-get_session ev s.id ended
    ∙ after_actions-append ev s.id d.actions (record { id = s.id; sock = none } ∷ [])
        (session_at s.id d.sessions)
    ∙ ground arith
