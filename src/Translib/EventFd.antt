-- ===== src/Translib/EventFd.antt =====
-- include/translib/eventServer.h and include/translib/eventClient.h: `EventFdServer` and
-- `EventFdClient`. An eventfd is the kernel's: `EventFd` has the calls that the code makes of it, with
-- what its manual says in `IsEventFd`. libevent keeps the events, each at its address; what
-- `event_new` and `event_add` return is an argument.
pub mod Watched
use dbwrapper.Prelude.{
  ℕ, ◌+◌, ◌<◌, ◌≡◌, Bool, true, false, ◌&&◌, List, [], ◌∷◌, Option, none, some, ◌==◌, if◌then◌else◌,
  remove_if,
}

-- `write` of a one, `none` unless all its bytes are written, and `read`, `none` likewise.
pub record EventFd (F : Type 0) : Type 0 where
  pub write : F → Option F
  pub read : F → Option (ℕ × F)

-- What the manual of eventfd says of a descriptor without EFD_SEMAPHORE that does not block: `count`
-- is its counter; a write fails when the counter is at its maximum, and a read when it is zero.
pub record IsEventFd {F : Type 0} (E : EventFd F) : Type 0 where
  pub count : F → ℕ
  pub write-count : (f f' : F) → E.write f ≡ some f' → count f' ≡ count f + 1
  pub write-full : (f : F) → E.write f ≡ none → 0 < count f
  pub read-count : (f f' : F) (n : ℕ) → E.read f ≡ some (n, f') → (n ≡ count f) × (count f' ≡ 0)
  pub read-zero : (f : F) → E.read f ≡ none → count f ≡ 0

-- `EventFdClient::send`
unfoldable pub send_event : {F : Type 0} → EventFd F → F → Bool × F
send_event E f = elim (E.write f) [ none ↦ (false, f) | some f' ↦ (true, f') ]

-- An event that libevent has made, and whether it was added.
pub record Watch : Type 0 where
  pub address : ℕ
  pub fd : ℕ
  pub callback : ℕ
  pub arg : ℕ
  pub added : Bool

pub record EventFdServer : Type 0 where
  pub event_fd : ℕ
  pub event_callback : ℕ
  -- `_event`, none for null.
  pub event : Option ℕ
  pub arg : ℕ

-- `EventFdServer()`, whose event stands at `at`; none when it throws.
unfoldable pub new_event_server :
    Bool → Bool → ℕ → ℕ → ℕ → ℕ → List Watch → Option EventFdServer × List Watch
new_event_server created added at fd cb arg ws =
    if created
    then (
      if added
          then some (record { event_fd = fd; event_callback = cb; event = some at; arg = arg })
          else none,
      record { address = at; fd = fd; callback = cb; arg = arg; added = added } ∷ ws,
    )
    else (none, ws)

-- `~EventFdServer()`
unfoldable pub destroy_event_server : EventFdServer → List Watch → List Watch
destroy_event_server s ws = elim s.event [
  | none ↦ ws
  | some at ↦ remove_if (λ w. w.address == at) ws
]

unfoldable pub set_evfd_arg : ℕ → EventFdServer × List Watch → EventFdServer × List Watch
set_evfd_arg arg (s, ws) = (record s { arg = arg }, ws)
