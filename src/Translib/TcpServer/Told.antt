-- ===== src/Translib/TcpServer/Told.antt =====
-- What a dispatcher tells its server about sessions.
use mathlib.Core.Path.{subst}
use mathlib.Core.List.{append_assoc, append-nil}
use dbwrapper.Prelude.{
  ℕ, ◌+◌, ◌<◌, ◌≤◌, ◌≡◌, refl, sym, Bool, true, false, List, [], ◌∷◌, ◌++◌, none, some,
  if◌then◌else◌, ◌==◌, arith, All, All-remove_if, remove_if-All, remove_if, Bool-cases,
  Option-cases, All-map₂, inl, inr, ◌&&◌, ◌∙◌,
}
use dbwrapper.Translib.TcpServer.{
  Libevent, Note, new_session, session_read, session_disconnected, TcpSession, SessionAction,
  Dispatcher, attach, run_action, run_actions, on_frame,
}

-- How often a session was told to be new.
abbrev pub news : ℕ → List Note → ℕ
news id [] = 0
news id (new_session j ∷ ns) = (if j == id then 1 else 0) + news id ns
news id (session_read _ ∷ ns) = news id ns
news id (session_disconnected _ ∷ ns) = news id ns

-- Whatever is told about a session was told after that it is new.
abbrev pub Follows : List Note → Note → Type 0
Follows before (new_session id) = Unit
Follows before (session_read id) = 0 < news id before
Follows before (session_disconnected id) = 0 < news id before

abbrev pub IsOrderly : List Note → List Note → Type 0
IsOrderly before [] = Unit
IsOrderly before (n ∷ ns) = Follows before n × IsOrderly (before ++ n ∷ []) ns

pub news-append : (id : ℕ) (ms ns : List Note) → news id (ms ++ ns) ≡ news id ms + news id ns
news-append id [] ns = omega arith
news-append id (new_session j ∷ ms) ns = omega (arith, news-append id ms ns)
news-append id (session_read j ∷ ms) ns = news-append id ms ns
news-append id (session_disconnected j ∷ ms) ns = news-append id ms ns

pub IsOrderly-snoc :
    (before ns : List Note) (n : Note)
    → IsOrderly before ns
    → Follows (before ++ ns) n
    → IsOrderly before (ns ++ n ∷ [])
IsOrderly-snoc before [] n o f = (subst (λ b. Follows b n) (append-nil before) f, tt)
IsOrderly-snoc before (m ∷ ns) n (p, o) f = (
  p,
  IsOrderly-snoc (before ++ m ∷ []) ns n o
      (subst (λ b. Follows b n) (sym (append_assoc before (m ∷ []) ns)) f),
)

abbrev pub is_add : SessionAction → Bool
is_add a = elim a.sock [ none ↦ false | some _ ↦ true ]

-- How many sessions with an id wait for being attached.
abbrev pub adds : ℕ → List SessionAction → ℕ
adds id [] = 0
adds id (a ∷ as_) = (if a.id == id then (if is_add a then 1 else 0) else 0) + adds id as_

pub adds-append :
    (id : ℕ) (as_ bs : List SessionAction) → adds id (as_ ++ bs) ≡ adds id as_ + adds id bs
adds-append id [] bs = omega arith
adds-append id (a ∷ as_) bs = omega (arith, adds-append id as_ bs)

-- The dispatcher `i` of a server whose ids lead to dispatchers by `lead`, where `pending` are the
-- actions that are not run yet and `last` is the last id: sessions stand under their ids at the
-- dispatcher that their ids lead to, and each was told to be new once.
pub record IsTidy (lead : ℕ → ℕ) (i last : ℕ) (pending : List SessionAction) (d : Dispatcher)
    : Type 0 where
  pub sessions :
      All
        (λ (e : ℕ × TcpSession). (e.0 ≡ e.1.id) × (lead e.0 ≡ i) × (news e.0 d.notes ≡ 1))
        d.sessions
  pub actions : All (λ (a : SessionAction). lead a.id ≡ i) pending
  pub once : (id : ℕ) → news id d.notes + adds id pending ≤ 1
  pub fresh : (id : ℕ) → last < id → news id d.notes + adds id pending ≡ 0
  pub orderly : IsOrderly [] d.notes

module _ (ev : Libevent) (lead : ℕ → ℕ) (i last : ℕ) where
  attached-IsTidy :
      (id : ℕ) (pending : List SessionAction) (sock : ℕ) (d : Dispatcher)
      → IsTidy lead i last (record { id = id; sock = some sock } ∷ pending) d
      → IsTidy lead i last pending (record d {
        notes = d.notes ++ new_session id ∷ [];
        sessions = (id, record { id = id; bev = true }) ∷ remove_if (λ e. e.0 == id) d.sessions;
      })
  attached-IsTidy id pending sock d t =
      let old : news id d.notes ≡ 0 = ground (arith, t.once id) in
      record {
        sessions = (
          (refl, t.actions.0, ground (arith, news-append id d.notes (new_session id ∷ []))),
          All-map₂
              (λ e other (p, q, r).
                (p, q, ground (arith, news-append e.0 d.notes (new_session id ∷ []))))
              (remove_if (λ e. e.0 == id) d.sessions) (remove_if-All (λ e. e.0 == id) d.sessions)
              (All-remove_if _ (λ e. e.0 == id) d.sessions t.sessions),
        );
        actions = t.actions.1;
        once = λ j. ground (arith, t.once j, news-append j d.notes (new_session id ∷ []));
        fresh = λ j lt. ground (arith, t.fresh j lt, news-append j d.notes (new_session id ∷ []));
        orderly = IsOrderly-snoc [] d.notes (new_session id) t.orderly tt;
      }

  dropped-IsTidy :
      (a : SessionAction) (pending : List SessionAction) (d : Dispatcher)
      → IsTidy lead i last (a ∷ pending) d
      → IsTidy lead i last pending d
  dropped-IsTidy a pending d t = record {
    sessions = t.sessions;
    actions = t.actions.1;
    once = λ j. ground (arith, t.once j);
    fresh = λ j lt. ground (arith, t.fresh j lt);
    orderly = t.orderly;
  }

  removed-IsTidy :
      (id : ℕ) (pending : List SessionAction) (d : Dispatcher)
      → IsTidy lead i last pending d
      → IsTidy lead i last pending (record d { sessions = remove_if (λ e. e.0 == id) d.sessions })
  removed-IsTidy id pending d t = record {
    sessions = All-remove_if _ (λ e. e.0 == id) d.sessions t.sessions;
    actions = t.actions;
    once = t.once;
    fresh = t.fresh;
    orderly = t.orderly;
  }

  run_action-IsTidy :
      (a : SessionAction) (pending : List SessionAction) (d : Dispatcher)
      → IsTidy lead i last (a ∷ pending) d
      → IsTidy lead i last pending (run_action ev a d)
  unfolding run_action attach
  run_action-IsTidy a pending d t =
      let left = dropped-IsTidy a pending d t in
      elim (Option-cases a.sock) [
        | inl e ↦
            let r : run_action ev a d
                ≡ record d { sessions = remove_if (λ x. x.0 == a.id) d.sessions } =
              ground (arith, e) in
            subst (IsTidy lead i last pending) (sym r) (removed-IsTidy a.id pending d left)
        | inr (sock, e) ↦ elim (Bool-cases (ev.makes sock && ev.enables sock)) [
          | inl ok ↦
              let t' : IsTidy lead i last (record { id = a.id; sock = some sock } ∷ pending) d =
                subst (λ o. IsTidy lead i last (record { id = a.id; sock = o } ∷ pending) d) e t in
              let r : run_action ev a d ≡ record d {
                notes = d.notes ++ new_session a.id ∷ [];
                sessions =
                    (a.id, record { id = a.id; bev = true })
                    ∷ remove_if (λ x. x.0 == a.id) d.sessions;
              } =
                ground (arith, e, ok) in
              subst (IsTidy lead i last pending) (sym r) (attached-IsTidy a.id pending sock d t')
          | inr refused ↦
              let r : run_action ev a d ≡ d = ground (arith, e, refused) in
              subst (IsTidy lead i last pending) (sym r) left
        ]
      ]

  run_actions-IsTidy :
      (as_ : List SessionAction) (d : Dispatcher)
      → IsTidy lead i last as_ d
      → IsTidy lead i last [] (run_actions ev as_ d)
  unfolding run_actions
  run_actions-IsTidy [] d t = t
  run_actions-IsTidy (a ∷ as_) d t =
      run_actions-IsTidy as_ (run_action ev a d) (run_action-IsTidy a as_ d t)

  run_actions-actions :
      (as_ : List SessionAction) (d : Dispatcher) → (run_actions ev as_ d).actions ≡ d.actions
  unfolding run_actions run_action attach
  run_actions-actions [] d = refl
  run_actions-actions (a ∷ as_) d = run_actions-actions as_ (run_action ev a d) ∙ ground arith

  pub on_frame-IsTidy :
      (d : Dispatcher)
      → IsTidy lead i last d.actions d
      → let d' = on_frame ev d in IsTidy lead i last d'.actions d'
  unfolding on_frame
  on_frame-IsTidy d t =
      let d0 : Dispatcher = record d { actions = [] } in
      let t0 : IsTidy lead i last d.actions d0 = record {
        sessions = t.sessions;
        actions = t.actions;
        once = t.once;
        fresh = t.fresh;
        orderly = t.orderly;
      } in
      subst (λ as_. IsTidy lead i last as_ (on_frame ev d)) (sym (run_actions-actions d.actions d0))
        (run_actions-IsTidy d.actions d0 t0)
