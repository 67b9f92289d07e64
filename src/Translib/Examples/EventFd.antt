-- ===== src/Translib/Examples/EventFd.antt =====
-- A server of an eventfd next to another one, and the theorem there.
use dbwrapper.Prelude.{◌≡◌, true, List, [], ◌∷◌, some, arith}
use dbwrapper.Translib.EventFd.{Watch, EventFdServer, new_event_server, destroy_event_server}
use dbwrapper.Translib.EventFd.Watched.{set_args, set_evfd_arg-kept}

abbrev others : List Watch
others = record { address = 70; fd = 4; callback = 8; arg = 9; added = true } ∷ []

set_evfd_arg-kept_example :
    (s : EventFdServer) × ((new_event_server true true 60 4 5 6 others).0 ≡ some s)
    × (let (s', ws') = set_args (7 ∷ []) (s, (new_event_server true true 60 4 5 6 others).1) in
        (ws' ≡ record { address = 60; fd = 4; callback = 5; arg = 6; added = true } ∷ others)
        × (destroy_event_server s' ws' ≡ others))
set_evfd_arg-kept_example = set_evfd_arg-kept 60 4 5 6 (7 ∷ []) others (omega arith)
