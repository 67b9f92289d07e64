-- ===== src/Translib/TcpServer/Routing.antt =====
-- The way of a connection from the listener to the dispatcher that holds its session.
use mathlib.Core.Path.{subst}
use dbwrapper.Prelude.{
  ◌⊎◌, inl, inr, Bool-cases, ℕ, zero, suc, ◌+◌, ◌%◌, ◌^◌, ◌<◌, ◌≡◌, ◌∙◌, ap, refl, true, false,
  List, [], ◌∷◌, some, if◌then◌else◌, ◌==◌, arith, length,
}
use dbwrapper.Translib.TcpServer.{
  Libevent, Dispatcher, session_at, get_session, add_session, on_frame, TcpServer, at_index,
  adjust_at, get_session_dispatcher, with_dispatcher, listen_event_callback,
}
use dbwrapper.Translib.TcpServer.Sessions.{after_actions-append, on_frame-get_session}

at_index-exists :
    (n : ℕ) (ds : List Dispatcher) → n < length ds → (d : Dispatcher) × (at_index n ds ≡ some d)
at_index-exists n [] p = ground (arith, p)
at_index-exists zero (d ∷ ds) p = (d, refl)
at_index-exists (suc n) (d ∷ ds) p = at_index-exists n ds (omega (arith, p))

at_index-adjust :
    (n : ℕ) (f : Dispatcher → Dispatcher) (d : Dispatcher) (ds : List Dispatcher)
    → at_index n ds ≡ some d
    → (at_index n (adjust_at n f ds) ≡ some (f d)) × (length (adjust_at n f ds) ≡ length ds)
at_index-adjust n f d [] e = ground arith
at_index-adjust zero f d (d' ∷ ds) e = (ground arith, refl)
at_index-adjust (suc n) f d (d' ∷ ds) e = let (i, l) = at_index-adjust n f d ds e in (i, ap suc l)

remainder : (n m : ℕ) → (m == 0) ≡ false → n % m < m
remainder n m e = ground arith

-- There is a dispatcher for each id.
get_session_dispatcher-exists :
    (id : ℕ) (s : TcpServer) → (d : Dispatcher) × (get_session_dispatcher id s ≡ some d)
unfolding get_session_dispatcher
get_session_dispatcher-exists id s = elim (Bool-cases (length s.slavers == 0)) [
  | inl e ↦ (s.master, rw e refl)
  | inr e ↦
      let (d, i) =
        at_index-exists (id % length s.slavers) s.slavers (remainder id (length s.slavers) e) in
      (d, rw e i)
]

get_session_dispatcher-with :
    (id : ℕ) (f : Dispatcher → Dispatcher) (d : Dispatcher) (s : TcpServer)
    → get_session_dispatcher id s ≡ some d
    → get_session_dispatcher id (with_dispatcher id f s) ≡ some (f d)
unfolding get_session_dispatcher with_dispatcher
get_session_dispatcher-with id f d s e = elim (Bool-cases (length s.slavers == 0)) [
  | inl z ↦ ground arith
  | inr z ↦
      let n = id % length s.slavers in
      let (i, l) =
        at_index-adjust n f d s.slavers
          (subst (λ b. (if b then some s.master else at_index n s.slavers) ≡ some d) z e) in
      rw (z, l, z) i
]

-- A connection that the listener accepts gets the next id, and its session is found by that id, at the
-- dispatcher that the id leads to, once this dispatcher has run a frame; unless libevent refuses the
-- socket, whatever waited in the queue before.
pub listen_event_callback-served :
    (ev : Libevent) (sock : ℕ) (s : TcpServer)
    → ev.makes sock ≡ true
    → ev.enables sock ≡ true
    → let id = (listen_event_callback sock s).0 in
      (d : Dispatcher) × (get_session_dispatcher id
          (with_dispatcher id (on_frame ev) (listen_event_callback sock s).1)
        ≡ some d)
      × (get_session id d ≡ some (record { id = id; bev = true }))
unfolding listen_event_callback add_session get_session
listen_event_callback-served ev sock s m e =
    let id = (s.session_id_generator + 1) % 2 ^ 64 in
    let s0 : TcpServer = record s { session_id_generator = id } in
    let (d, i) = get_session_dispatcher-exists id s0 in
    let added = add_session id (some sock) d in
    let i1 = get_session_dispatcher-with id (add_session id (some sock)) d s0 i in
    (
      on_frame ev added,
      get_session_dispatcher-with id (on_frame ev) added _ i1,
      on_frame-get_session ev id added
          ∙ after_actions-append ev id d.actions (record { id = id; sock = some sock } ∷ [])
              (session_at id d.sessions)
          ∙ ground arith,
    )

at_index-adjust_at :
    (n m : ℕ) (f : Dispatcher → Dispatcher) (ds : List Dispatcher) (d' : Dispatcher)
    → at_index n (adjust_at m f ds) ≡ some d'
    → ((n ≡ m) × ((d : Dispatcher) × (at_index m ds ≡ some d) × (d' ≡ f d)))
      ⊎ (at_index n ds ≡ some d')
at_index-adjust_at n m f [] d' e = ground arith
at_index-adjust_at zero zero f (d ∷ ds) d' e = inl (refl, (d, refl, ground arith))
at_index-adjust_at zero (suc m) f (d ∷ ds) d' e = inr e
at_index-adjust_at (suc n) zero f (d ∷ ds) d' e = inr e
at_index-adjust_at (suc n) (suc m) f (d ∷ ds) d' e = elim (at_index-adjust_at n m f ds d' e) [
  | inl (p, h) ↦ inl (ap suc p, h)
  | inr h ↦ inr h
]

length-adjust_at :
    (m : ℕ) (f : Dispatcher → Dispatcher) (ds : List Dispatcher)
    → length (adjust_at m f ds) ≡ length ds
length-adjust_at m f [] = refl
length-adjust_at zero f (d ∷ ds) = refl
length-adjust_at (suc m) f (d ∷ ds) = ap suc (length-adjust_at m f ds)

-- The number of the dispatcher that an id leads to.
abbrev pub lead : ℕ → ℕ → ℕ
lead n id = if n == 0 then 0 else id % n

pub with_dispatcher-cases :
    (j k : ℕ) (f : Dispatcher → Dispatcher) (s : TcpServer) (d' : Dispatcher)
    → get_session_dispatcher j (with_dispatcher k f s) ≡ some d'
    → ((lead (length s.slavers) j ≡ lead (length s.slavers) k)
        × ((d : Dispatcher) × (get_session_dispatcher k s ≡ some d) × (d' ≡ f d)))
      ⊎ (get_session_dispatcher j s ≡ some d')
unfolding get_session_dispatcher with_dispatcher
with_dispatcher-cases j k f s d' e = elim (Bool-cases (length s.slavers == 0)) [
  | inl z ↦ inl (rw z refl, (s.master, rw z refl, ground arith))
  | inr z ↦
      let n = length s.slavers in
      let l = length-adjust_at (k % n) f s.slavers in
      let found : at_index (j % n) (adjust_at (k % n) f s.slavers) ≡ some d' = ground (arith, l) in
      elim (at_index-adjust_at (j % n) (k % n) f s.slavers d' found) [
        | inl (p, (d, at, made)) ↦ inl (rw z p, (d, rw z at, made))
        | inr at ↦ inr (rw z at)
      ]
]

pub length-with_dispatcher :
    (k : ℕ) (f : Dispatcher → Dispatcher) (s : TcpServer)
    → length (with_dispatcher k f s).slavers ≡ length s.slavers
unfolding with_dispatcher
length-with_dispatcher k f s = ground (arith, length-adjust_at (k % length s.slavers) f s.slavers)

pub id-with_dispatcher :
    (k : ℕ) (f : Dispatcher → Dispatcher) (s : TcpServer)
    → (with_dispatcher k f s).session_id_generator ≡ s.session_id_generator
unfolding with_dispatcher
id-with_dispatcher k f s = ground arith

pub get_session_dispatcher-lead :
    (j k : ℕ) (s : TcpServer)
    → lead (length s.slavers) j ≡ lead (length s.slavers) k
    → get_session_dispatcher j s ≡ get_session_dispatcher k s
unfolding get_session_dispatcher
get_session_dispatcher-lead j k s e = ground arith
