-- ===== src/Translib/TcpSocket/Closing.antt =====
-- A close that waits for the output.
use dbwrapper.Prelude.{
  ℕ, ◌==◌, if◌then◌else◌, ◌-◌, ◌≡◌, ap, ◌∙◌, ◌≢◌, refl, Bool, true, false, List, [], ◌∷◌, arith,
  Bool-cases, inl, inr, ℤ,
}
use dbwrapper.Translib.TcpSocket.{
  TcpSocket, socket_fd_invalid, socket, get_addr, destroy_socket, send, close_impl, close,
  check_closing, SocketEvent, writes_out, write_callback, sends, on_event, on_events,
}

-- Whether, with so much output left to write, the write callback runs when all of it is written.
pub is_drained : ℕ → List SocketEvent → Bool
is_drained left [] = false
is_drained left (writes_out n ∷ es) = is_drained (left - n) es
is_drained left (write_callback ∷ es) = if left == 0 then true else is_drained left es
is_drained left (sends _ _ ∷ es) = is_drained left es

on_event-shut : (e : SocketEvent) (s : TcpSocket) → s.shut ≡ true → (on_event e s).shut ≡ true
unfolding on_event check_closing close_impl send
on_event-shut (writes_out n) s shut = shut
on_event-shut write_callback s shut = ground arith
on_event-shut (sends written size) s shut = ground arith

on_events-shut :
    (es : List SocketEvent) (s : TcpSocket) → s.shut ≡ true → (on_events es s).shut ≡ true
unfolding on_events on_event check_closing close_impl send
on_events-shut [] s shut = shut
on_events-shut (e ∷ es) s shut = on_events-shut es (on_event e s) (on_event-shut e s shut)

on_events-closing :
    (es : List SocketEvent) (s : TcpSocket)
    → s.is_closing ≡ true
    → s.shut ≡ false
    → (on_events es s).shut ≡ is_drained s.output es
unfolding on_events on_event is_drained check_closing close_impl send
on_events-closing [] s closing alive = alive
on_events-closing (writes_out n ∷ es) s closing alive =
    on_events-closing es (record s { output = s.output - n }) closing alive
on_events-closing (sends written size ∷ es) s closing alive =
    let refused : on_event (sends written size) s ≡ s = ground arith in
    ap (λ x. (on_events es x).shut) refused ∙ on_events-closing es s closing alive
on_events-closing (write_callback ∷ es) s closing alive = elim (Bool-cases (s.output == 0)) [
  | inl done ↦
      let shuts : (on_event write_callback s).shut ≡ true = ground arith in
      rw done (on_events-shut es (on_event write_callback s) shuts)
  | inr more ↦
      let stays : on_event write_callback s ≡ s = ground arith in
      rw more (ap (λ x. (on_events es x).shut) stays ∙ on_events-closing es s closing alive)
]

-- Closing a socket that has a bufferevent and is not shut, and that waits for its output: at once when
-- there is none, and otherwise exactly when the write callback runs with all of that output written,
-- the socket is shut down, however libevent writes out, whenever it runs the callback, and whatever
-- is sent meanwhile.
pub close-drained :
    (s : TcpSocket) (es : List SocketEvent)
    → s.bev ≡ true
    → s.shut ≡ false
    → (on_events es (close true s)).shut ≡ (if s.output == 0 then true else is_drained s.output es)
unfolding close close_impl
close-drained s es live alive = elim (Bool-cases (s.output == 0)) [
  | inl none_left ↦
      let shuts : (close true s).shut ≡ true = ground arith in
      rw none_left (on_events-shut es (close true s) shuts)
  | inr some_output ↦
      let waits : close true s ≡ record s { is_closing = true } = ground arith in
      rw (waits, some_output) (on_events-closing es (record s { is_closing = true }) refl alive)
]

-- Once a close waits for the output, `send` takes nothing more: it returns false, whatever libevent
-- would take, and leaves the socket as it is.
pub close-send :
    (s : TcpSocket) (written : Bool) (size : ℕ)
    → s.output ≢ 0
    → send written size (close true s) ≡ (false, close true s)
unfolding close send
close-send s written size some_output = ground arith

-- After the destructor, and likewise before there is a bufferevent, nothing is sent or closed, and
-- there is neither a descriptor nor an address.
destroy_socket-idle :
    {A : Type 0} (s : TcpSocket) (written waiting : Bool) (getpeername : ℤ → A → A)
    (size addr_size : ℕ) (fd : ℤ) (dest : A)
    → let s' = destroy_socket s in
      (send written size s' ≡ (false, s'))
      × (close waiting s' ≡ s')
      × (socket fd s' ≡ socket_fd_invalid)
      × (get_addr getpeername addr_size fd size s' dest ≡ dest)
unfolding destroy_socket send close socket get_addr
destroy_socket-idle s written waiting getpeername size addr_size fd dest = (refl, refl, refl, refl)
