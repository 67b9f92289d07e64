-- ===== src/Translib/TcpServer/Events.antt =====
-- What the events of sessions keep.
use mathlib.Core.Path.{subst}
use dbwrapper.Prelude.{
  ℕ, ◌<◌, ◌≤◌, ◌≡◌, inl, inr, List, [], ◌∷◌, none, some, ◌==◌, arith, All, All-append, All-map,
  Bool-cases,
}
use dbwrapper.Translib.TcpServer.{
  session_read, session_disconnected, TcpSession, SessionAction, Dispatcher, session_at,
  add_session, remove_session, on_read, handle_event,
}
use dbwrapper.Translib.TcpServer.Told.{news, news-append, IsOrderly-snoc, adds-append, IsTidy}

pub session_at-All {κ} :
    (P : ℕ × TcpSession → Type κ) (k : ℕ) (t : TcpSession) (m : List (ℕ × TcpSession))
    → session_at k m ≡ some t
    → All P m
    → P (k, t)
session_at-All P k t [] e h = cc
session_at-All P k t (x ∷ m) e (h, hs) = elim (Bool-cases (k == x.0)) [
  | inl q ↦ let p : x ≡ (k, t) = ground arith in subst P p h
  | inr q ↦ session_at-All P k t m (ground arith) hs
]

module _ (lead : ℕ → ℕ) (i last : ℕ) where
  pub on_read-IsTidy :
      (s : TcpSession) (d : Dispatcher)
      → news s.id d.notes ≡ 1
      → IsTidy lead i last d.actions d
      → IsTidy lead i last d.actions (on_read s d)
  unfolding on_read
  on_read-IsTidy s d n t = record {
    sessions =
        All-map
          (λ e (p, q, r). (p, q, ground (arith, news-append e.0 d.notes (session_read s.id ∷ []))))
          d.sessions t.sessions;
    actions = t.actions;
    once = λ j. ground (arith, t.once j, news-append j d.notes (session_read s.id ∷ []));
    fresh = λ j lt. ground (arith, t.fresh j lt, news-append j d.notes (session_read s.id ∷ []));
    orderly = IsOrderly-snoc [] d.notes (session_read s.id) t.orderly (ground arith);
  }

  pub handle_event-IsTidy :
      (s : TcpSession) (d : Dispatcher)
      → news s.id d.notes ≡ 1
      → lead s.id ≡ i
      → IsTidy lead i last d.actions d
      → let d' = handle_event s d in IsTidy lead i last d'.actions d'
  unfolding handle_event remove_session
  handle_event-IsTidy s d n l t =
      let end = session_disconnected s.id in
      let act : SessionAction = record { id = s.id; sock = none } in
      record {
        sessions =
            All-map (λ e (p, q, r). (p, q, ground (arith, news-append e.0 d.notes (end ∷ []))))
              d.sessions t.sessions;
        actions = All-append _ d.actions (act ∷ []) t.actions (l, tt);
        once = λ j.
            ground (
              arith,
              t.once j,
              news-append j d.notes (end ∷ []),
              adds-append j d.actions (act ∷ []),
            );
        fresh = λ j lt. ground (
          arith,
          t.fresh j lt,
          news-append j d.notes (end ∷ []),
          adds-append j d.actions (act ∷ []),
        );
        orderly = IsOrderly-snoc [] d.notes end t.orderly (ground arith);
      }

  -- The next id.
  pub add_session-IsTidy :
      (id sock : ℕ) (d : Dispatcher)
      → last < id
      → lead id ≡ i
      → IsTidy lead i last d.actions d
      → let d' = add_session id (some sock) d in IsTidy lead i id d'.actions d'
  unfolding add_session
  add_session-IsTidy id sock d lt l t =
      let act : SessionAction = record { id = id; sock = some sock } in
      record {
        sessions = t.sessions;
        actions = All-append _ d.actions (act ∷ []) t.actions (l, tt);
        once = λ j. ground (arith, t.once j, t.fresh id lt, adds-append j d.actions (act ∷ []));
        fresh =
            λ j lt'. ground (arith, t.fresh j (omega arith), adds-append j d.actions (act ∷ []));
        orderly = t.orderly;
      }

  -- Ids that went elsewhere.
  pub IsTidy-later :
      (later : ℕ) (d : Dispatcher)
      → last ≤ later
      → IsTidy lead i last d.actions d
      → IsTidy lead i later d.actions d
  IsTidy-later later d le t = record {
    sessions = t.sessions;
    actions = t.actions;
    once = t.once;
    fresh = λ j lt. t.fresh j (omega arith);
    orderly = t.orderly;
  }
