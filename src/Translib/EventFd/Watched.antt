-- ===== src/Translib/EventFd/Watched.antt =====
-- The event that libevent keeps for a server, and what a read of an eventfd gives.
use dbwrapper.Prelude.{
  ℕ, zero, suc, ◌+◌, ◌≡◌, ◌≢◌, ◌∙◌, refl, sym, true, false, List, [], ◌∷◌, none, some, ◌==◌,
  if◌then◌else◌, arith, All, remove_if-eq_self, All-map, Option-cases, inl, inr,
}
use dbwrapper.Translib.EventFd.{
  EventFd, IsEventFd, send_event, Watch, EventFdServer, new_event_server, destroy_event_server,
  set_evfd_arg,
}

unfoldable pub set_args : List ℕ → EventFdServer × List Watch → EventFdServer × List Watch
set_args [] x = x
set_args (arg ∷ args) x = set_args args (set_evfd_arg arg x)

set_args-kept :
    (args : List ℕ) (x : EventFdServer × List Watch)
    → ((set_args args x).1 ≡ x.1) × ((set_args args x).0.event ≡ x.0.event)
unfolding set_args set_evfd_arg
set_args-kept [] x = (refl, refl)
set_args-kept (arg ∷ args) (s, ws) = set_args-kept args (record s { arg = arg }, ws)

-- The event of a server, at an address of its own, stays with libevent as the constructor made and
-- added it, with the argument that the constructor was given, whatever `set_evfd_arg` is told; the
-- destructor takes it from libevent; and the events of others stay as they are.
pub set_evfd_arg-kept :
    (at fd cb arg : ℕ) (args : List ℕ) (ws : List Watch)
    → All (λ w. w.address ≢ at) ws
    → (s : EventFdServer) × ((new_event_server true true at fd cb arg ws).0 ≡ some s)
      × (let (s', ws') = set_args args (s, (new_event_server true true at fd cb arg ws).1) in
          (ws' ≡ record { address = at; fd = fd; callback = cb; arg = arg; added = true } ∷ ws)
          × (destroy_event_server s' ws' ≡ ws))
unfolding new_event_server destroy_event_server
set_evfd_arg-kept at fd cb arg args ws own =
    let s : EventFdServer = record {
      event_fd = fd;
      event_callback = cb;
      event = some at;
      arg = arg;
    } in
    let made : List Watch =
      record { address = at; fd = fd; callback = cb; arg = arg; added = true } ∷ ws in
    let (same, event) = set_args-kept args (s, made) in
    let kept =
      remove_if-eq_self (λ w. w.address == at) ws (All-map (λ w ne. ground arith) ws own) in
    (s, refl, (same, rw (destroy_event_server, event, same) (ground (arith, kept))))

-- When the event cannot be added, the constructor throws, and its event stays with libevent: no
-- destructor runs for the server that did not come to be.
new_event_server-leaks :
    (at fd cb arg : ℕ) (ws : List Watch)
    → let (s, ws') = new_event_server true false at fd cb arg ws in
      (s ≡ none)
      × (ws' ≡ record { address = at; fd = fd; callback = cb; arg = arg; added = false } ∷ ws)
unfolding new_event_server
new_event_server-leaks at fd cb arg ws = (refl, refl)

module _ {F : Type 0} (E : EventFd F) (e : IsEventFd E) where
  unfoldable pub sends : ℕ → F → ℕ × F
  sends zero f = (0, f)
  sends (suc n) f =
      let (ok, f') = send_event E f in let (k, f'') = sends n f' in ((if ok then 1 else 0) + k, f'')

  sends-count : (n : ℕ) (f : F) → e.count (sends n f).1 ≡ e.count f + (sends n f).0
  unfolding sends send_event
  sends-count zero f = omega arith
  sends-count (suc n) f = elim (Option-cases (E.write f)) [
    | inl full ↦ ground (arith, full, sends-count n f)
    | inr (f', one) ↦ ground (arith, one, sends-count n f', e.write-count f f')
  ]

  -- A read after any number of sends tells how many of them returned true, with what was there before,
  -- and leaves nothing to read; it fails only when none returned true and nothing was there.
  sends-read :
      (n : ℕ) (f : F)
      → ((k : ℕ) (f' : F)
          → E.read (sends n f).1 ≡ some (k, f')
          → (k ≡ e.count f + (sends n f).0) × (e.count f' ≡ 0))
        × (E.read (sends n f).1 ≡ none → e.count f + (sends n f).0 ≡ 0)
  sends-read n f = (
    λ k f' r. let (p, q) = e.read-count (sends n f).1 f' k r in (p ∙ sends-count n f, q),
    λ r. sym (sends-count n f) ∙ e.read-zero (sends n f).1 r,
  )
