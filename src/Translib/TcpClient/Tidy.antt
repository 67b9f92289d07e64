-- ===== src/Translib/TcpClient/Tidy.antt =====
-- The bufferevent and the descriptor of a client over all its calls and events.
use dbwrapper.Prelude.{
  ℕ, ◌+◌, ◌*◌, ◌≡◌, refl, Bool, false, not, ◌&&◌, List, [], ◌∷◌, ◌++◌, if◌then◌else◌, arith,
}
use dbwrapper.Translib.TcpClient.{
  TcpClient, Event, ClientNote, on_disconnected, on_connected, new_client, connect, handle_event,
  free_bev,
}

-- A call of `connect`, with what the three calls in it return, or an event of libevent.
pub data ClientStep : Type 0 where
  connects : Bool → Bool → Bool → ClientStep
  event : Event → ClientStep

-- An event comes only while there is a bufferevent.
unfoldable pub client_step : ClientStep → TcpClient → TcpClient
unfolding connect handle_event
client_step (connects made enabled reached) s = (connect made enabled reached s).1
client_step (event e) s = if s.bev then handle_event e s else s

unfoldable pub client_run : List ClientStep → TcpClient → TcpClient
unfolding client_step
client_run [] s = s
client_run (a ∷ as_) s = client_run as_ (client_step a s)

-- How often the client was told that it is disconnected.
abbrev pub disconnects : List ClientNote → ℕ
disconnects [] = 0
disconnects (on_connected _ ∷ l) = disconnects l
disconnects (on_disconnected ∷ l) = disconnects l + 1

disconnects-append : (l k : List ClientNote) → disconnects (l ++ k) ≡ disconnects l + disconnects k
disconnects-append [] k = omega arith
disconnects-append (on_connected _ ∷ l) k = disconnects-append l k
disconnects-append (on_disconnected ∷ l) k = omega (arith, disconnects-append l k)

abbrev pub IsTidy : TcpClient → Type 0
IsTidy s =
    (s.live ≡ (if s.bev then 1 else 0))
    × ((s.is_connected && not s.bev) ≡ false)
    × (s.closes ≡ 2 * disconnects s.notes)

client_step-IsTidy : (a : ClientStep) (s : TcpClient) → IsTidy s → IsTidy (client_step a s)
unfolding client_step connect handle_event free_bev
client_step-IsTidy (connects made enabled reached) s (l, c, k) =
    (ground (arith, l, c), ground (arith, l, c), ground (arith, k))
client_step-IsTidy (event e) s (l, c, k) = (
  ground (arith, l, c),
  ground (arith, l, c),
  ground (
    arith,
    k,
    disconnects-append s.notes (on_disconnected ∷ []),
    disconnects-append s.notes (on_connected 0 ∷ []),
    disconnects-append s.notes (on_connected e.socket_error ∷ []),
  ),
)

client_run-IsTidy : (as_ : List ClientStep) (s : TcpClient) → IsTidy s → IsTidy (client_run as_ s)
unfolding client_run
client_run-IsTidy [] s t = t
client_run-IsTidy (a ∷ as_) s t = client_run-IsTidy as_ (client_step a s) (client_step-IsTidy a s t)

-- Whatever calls and events a new client has seen, it holds one bufferevent or none, as its pointer
-- says, and is connected only while it has one; but it has closed a descriptor twice for each time that
-- it was told that it is disconnected.
pub client_run-tidy :
    (as_ : List ClientStep)
    → let s = client_run as_ new_client in
      (s.live ≡ (if s.bev then 1 else 0))
      × ((s.is_connected && not s.bev) ≡ false)
      × (s.closes ≡ 2 * disconnects s.notes)
unfolding new_client
client_run-tidy as_ = client_run-IsTidy as_ new_client (refl, refl, refl)
