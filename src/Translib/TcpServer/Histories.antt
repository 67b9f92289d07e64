-- ===== src/Translib/TcpServer/Histories.antt =====
-- A server over all sequences of connections, frames and events.
use mathlib.Core.Path.{subst}
use dbwrapper.Prelude.{
  ℕ, zero, suc, ◌+◌, ◌%◌, ◌^◌, ◌<◌, ◌≤◌, ◌≡◌, ◌∙◌, ap, refl, sym, inl, inr, List, [], ◌∷◌, some,
  ◌==◌, arith, length, All, All-map, Bool-cases,
}
use dbwrapper.Translib.TcpServer.{
  Libevent, TcpSession, Dispatcher, add_session, on_read, handle_event, on_frame, TcpServer,
  at_index, get_session, get_session_dispatcher, with_dispatcher, listen_event_callback,
  set_threads, new_server,
}
use dbwrapper.Translib.TcpServer.Told.{news, IsOrderly, IsTidy, on_frame-IsTidy}
use dbwrapper.Translib.TcpServer.Events.{
  session_at-All, on_read-IsTidy, handle_event-IsTidy, add_session-IsTidy, IsTidy-later,
}
use dbwrapper.Translib.TcpServer.Routing.{
  lead, with_dispatcher-cases, length-with_dispatcher, id-with_dispatcher,
  get_session_dispatcher-lead,
}

-- What happens to a server. The ids come from a counter that all servers share; it has not wrapped yet.
pub data ServerStep (ev : Libevent) : TcpServer → TcpServer → Type 0 where
  accepts :
      (s : TcpServer) (sock : ℕ)
      → s.session_id_generator + 1 < 2 ^ 64
      → ServerStep ev s (listen_event_callback sock s).1
  runs_frame : (s : TcpServer) (k : ℕ) → ServerStep ev s (with_dispatcher k (on_frame ev) s)
  reads :
      (s : TcpServer) (k : ℕ) (d : Dispatcher) (t : TcpSession)
      → get_session_dispatcher k s ≡ some d
      → get_session k d ≡ some t
      → ServerStep ev s (with_dispatcher k (on_read t) s)
  ends :
      (s : TcpServer) (k : ℕ) (d : Dispatcher) (t : TcpSession)
      → get_session_dispatcher k s ≡ some d
      → get_session k d ≡ some t
      → ServerStep ev s (with_dispatcher k (handle_event t) s)
  elsewhere :
      (s : TcpServer) (id : ℕ)
      → s.session_id_generator ≤ id
      → ServerStep ev s (record s { session_id_generator = id })

pub data ServerReach (ev : Libevent) (s : TcpServer) : TcpServer → Type 0 where
  here : ServerReach ev s s
  next : {t u : TcpServer} → ServerReach ev s t → ServerStep ev t u → ServerReach ev s u

abbrev IsTidyServer : TcpServer → Type 0
IsTidyServer s =
    (k : ℕ) (d : Dispatcher)
    → get_session_dispatcher k s ≡ some d
    → IsTidy (lead (length s.slavers)) (lead (length s.slavers) k) s.session_id_generator d.actions
        d

-- A change of one dispatcher.
with_dispatcher-IsTidy :
    (s : TcpServer) (k last : ℕ) (f : Dispatcher → Dispatcher)
    → s.session_id_generator ≤ last
    → ((d : Dispatcher)
        → get_session_dispatcher k s ≡ some d
        → let n = length s.slavers in IsTidy (lead n) (lead n k) last (f d).actions (f d))
    → IsTidyServer s
    → IsTidyServer (with_dispatcher k f (record s { session_id_generator = last }))
unfolding get_session_dispatcher
with_dispatcher-IsTidy s k last f le step h j d' e =
    let s' : TcpServer = record s { session_id_generator = last } in
    let n = length s.slavers in
    let tidy : IsTidy (lead n) (lead n j) last d'.actions d' =
      elim (with_dispatcher-cases j k f s' d' e) [
        | inl (p, (d, at, made)) ↦
            subst (λ i. IsTidy (lead n) i last d'.actions d') (sym p)
              (subst (λ x. IsTidy (lead n) (lead n k) last x.actions x) (sym made) (step d at))
        | inr at ↦ IsTidy-later (lead n) (lead n j) s.session_id_generator last d' le (h j d' at)
      ] in
    subst
      (λ m. IsTidy (lead m) (lead m j) (with_dispatcher k f s').session_id_generator d'.actions d')
      (sym (length-with_dispatcher k f s'))
      (subst (λ g. IsTidy (lead n) (lead n j) g d'.actions d') (sym (id-with_dispatcher k f s'))
        tidy)

-- A session that is found was told to be new once, and stands where its id leads.
found-IsTidy :
    (s : TcpServer) (k : ℕ) (d : Dispatcher) (t : TcpSession)
    → IsTidyServer s
    → get_session_dispatcher k s ≡ some d
    → get_session k d ≡ some t
    → (k ≡ t.id) × (news t.id d.notes ≡ 1)
unfolding get_session
found-IsTidy s k d t h e g =
    let (p, q, r) = session_at-All _ k t d.sessions g (h k d e).sessions in
    (p, subst (λ id. news id d.notes ≡ 1) p r)

ServerStep-IsTidy :
    (ev : Libevent) {s s' : TcpServer} → ServerStep ev s s' → IsTidyServer s → IsTidyServer s'
unfolding listen_event_callback on_read get_session_dispatcher
ServerStep-IsTidy ev (accepts s sock fits) h =
    let id = (s.session_id_generator + 1) % 2 ^ 64 in
    let n = length s.slavers in
    with_dispatcher-IsTidy s id id (add_session id (some sock)) (omega arith)
      (λ d e.
        add_session-IsTidy (lead n) (lead n id) s.session_id_generator id sock d (omega arith) refl
          (h id d e))
      h
ServerStep-IsTidy ev (runs_frame s k) h =
    let n = length s.slavers in
    with_dispatcher-IsTidy s k s.session_id_generator (on_frame ev) (omega arith)
      (λ d e. on_frame-IsTidy ev (lead n) (lead n k) s.session_id_generator d (h k d e)) h
ServerStep-IsTidy ev (reads s k d t at g) h =
    let n = length s.slavers in
    let (p, r) = found-IsTidy s k d t h at g in
    with_dispatcher-IsTidy s k s.session_id_generator (on_read t) (omega arith)
      (λ d0 e.
        let same : d ≡ d0 = ground arith in
        on_read-IsTidy (lead n) (lead n k) s.session_id_generator t d0
          (subst (λ x. news t.id x.notes ≡ 1) same r) (h k d0 e))
      h
ServerStep-IsTidy ev (ends s k d t at g) h =
    let n = length s.slavers in
    let (p, r) = found-IsTidy s k d t h at g in
    with_dispatcher-IsTidy s k s.session_id_generator (handle_event t) (omega arith)
      (λ d0 e.
        let same : d ≡ d0 = ground arith in
        handle_event-IsTidy (lead n) (lead n k) s.session_id_generator t d0
          (subst (λ x. news t.id x.notes ≡ 1) same r) (ap (lead n) (sym p)) (h k d0 e))
      h
ServerStep-IsTidy ev (elsewhere s id le) h = λ k d e.
    IsTidy-later (lead (length s.slavers)) (lead (length s.slavers) k) s.session_id_generator id d
      le (h k d e)

ServerReach-IsTidy :
    (ev : Libevent) {s s' : TcpServer} → IsTidyServer s → ServerReach ev s s' → IsTidyServer s'
ServerReach-IsTidy ev h here = h
ServerReach-IsTidy ev h (next r t) = ServerStep-IsTidy ev t (ServerReach-IsTidy ev h r)

-- A dispatcher before it has run.
abbrev pub IsNew : Dispatcher → Type 0
IsNew d = (d.sessions ≡ []) × (d.actions ≡ []) × (d.notes ≡ [])

IsNew-IsTidy : (at : ℕ → ℕ) (i last : ℕ) (d : Dispatcher) → IsNew d → IsTidy at i last d.actions d
IsNew-IsTidy at i last d (e, f, g) = record {
  sessions = rw e tt;
  actions = rw f tt;
  once = λ j. ground (arith, e, f, g);
  fresh = λ j lt. ground (arith, e, f, g);
  orderly = rw g tt;
}

at_index-All :
    (P : Dispatcher → Type 0) (n : ℕ) (ds : List Dispatcher) (d : Dispatcher)
    → at_index n ds ≡ some d
    → All P ds
    → P d
at_index-All P n [] d e h = cc
at_index-All P zero (x ∷ ds) d e h = subst P (ground arith) h.0
at_index-All P (suc n) (x ∷ ds) d e h = at_index-All P n ds d e h.1

new_server-IsTidy :
    (master : Dispatcher) (made : List Dispatcher) (generator : ℕ)
    → All IsNew (master ∷ made)
    → IsTidyServer (new_server master made generator)
unfolding new_server set_threads get_session_dispatcher
new_server-IsTidy master made generator (m, ms) k d e =
    let new : IsNew d = elim (Bool-cases (length made == 0)) [
      | inl z ↦ let same : master ≡ d = ground arith in subst IsNew same m
      | inr z ↦ at_index-All IsNew (k % length made) made d (ground arith) ms
    ] in
    IsNew-IsTidy _ _ _ d new

-- Whatever connects, ends and is read, in any order, with frames of the dispatchers in between, while
-- the counter of the ids does not wrap: a dispatcher of a new server tells about a session only after
-- it has told that it is new, it tells that at most once, and each session that it holds was told to
-- be new and is found at this dispatcher by the id under which it is held.
pub ServerReach-told :
    (ev : Libevent) (master : Dispatcher) (made : List Dispatcher) (generator : ℕ) (s : TcpServer)
    (k : ℕ) (d : Dispatcher) (id : ℕ)
    → All IsNew (master ∷ made)
    → ServerReach ev (new_server master made generator) s
    → get_session_dispatcher k s ≡ some d
    → IsOrderly [] d.notes
      × (news id d.notes ≤ 1)
      × All
          (λ e. (e.0 ≡ e.1.id) × (news e.0 d.notes ≡ 1) × (get_session_dispatcher e.0 s ≡ some d))
          d.sessions
ServerReach-told ev master made generator s k d id new r at =
    let t = ServerReach-IsTidy ev (new_server-IsTidy master made generator new) r k d at in
    (
      t.orderly,
      ground (arith, t.once id),
      All-map (λ e (p, q, n). (p, n, get_session_dispatcher-lead e.0 k s q ∙ at)) d.sessions
          t.sessions,
    )
