-- ===== src/Translib/TcpSocket.antt =====
-- src/translib/tcpSocket.cpp: `TcpSocket`, with the numbers of bytes that libevent holds for it in
-- the input and the output buffer of its bufferevent. `on_event` is what may happen to
-- it; the write callback calls `checkClosing`.
pub mod Closing
pub mod Buffer
use dbwrapper.Prelude.{
  ℕ, zero, suc, ◌+◌, ◌-◌, Bool, true, false, not, ◌&&◌, ◌||◌, List, [], ◌∷◌, ltb, leb, ◌==◌,
  if◌then◌else◌, ℤ, negsuc,
}

pub record TcpSocket : Type 0 where
  -- Whether there is a bufferevent.
  pub bev : Bool
  pub is_closing : Bool
  pub input : ℕ
  pub output : ℕ
  -- Whether `shutdown` was called.
  pub shut : Bool

-- SOCKET_FD_INVALID
abbrev pub socket_fd_invalid : ℤ
socket_fd_invalid = negsuc 0

-- `socket`, where `fd` is what `bufferevent_getfd` returns.
unfoldable pub socket : ℤ → TcpSocket → ℤ
socket fd s = if not s.bev then socket_fd_invalid else fd

-- `getAddr` into `dest`, where `getpeername` overwrites it for a descriptor, and an address takes
-- `addr_size` bytes.
unfoldable pub get_addr : {A : Type 0} → (ℤ → A → A) → ℕ → ℤ → ℕ → TcpSocket → A → A
unfolding socket
get_addr getpeername addr_size fd size s dest =
    if not s.bev || ltb size addr_size then dest else getpeername (socket fd s) dest

-- The destructor, which also frees the bufferevent.
unfoldable pub destroy_socket : TcpSocket → TcpSocket
destroy_socket s = record s { bev = false }

-- `send`, where `written` is whether `bufferevent_write` took the bytes.
unfoldable pub send : Bool → ℕ → TcpSocket → Bool × TcpSocket
send written size s =
    if not s.bev || s.is_closing
    then (false, s)
    else (if written then (true, record s { output = s.output + size }) else (false, s))

-- `clearInputBuffer`
unfoldable pub clear_input_buffer : TcpSocket → TcpSocket
clear_input_buffer s = record s { input = if s.bev then 0 else s.input }

unfoldable pub close_impl : TcpSocket → TcpSocket
unfolding clear_input_buffer
close_impl s = record (clear_input_buffer (record s { is_closing = false })) { shut = true }

unfoldable pub close : Bool → TcpSocket → TcpSocket
unfolding close_impl
close waiting s =
    if not s.bev
    then s
    else (if waiting && ltb 0 s.output then record s { is_closing = true } else close_impl s)

unfoldable pub check_closing : TcpSocket → TcpSocket
unfolding close_impl
check_closing s =
    if s.is_closing && (s.output == 0) then close_impl (record s { is_closing = false }) else s

-- What happens to a socket: libevent writes out some of the output; it runs the write callback, which
-- it defers, so that there may be output again; and someone sends, where libevent takes the bytes or
-- not.
pub data SocketEvent : Type 0 where
  writes_out : ℕ → SocketEvent
  write_callback : SocketEvent
  sends : Bool → ℕ → SocketEvent

unfoldable pub on_event : SocketEvent → TcpSocket → TcpSocket
unfolding check_closing send
on_event (writes_out n) s = record s { output = s.output - n }
on_event write_callback s = check_closing s
on_event (sends written size) s = (send written size s).1

unfoldable pub on_events : List SocketEvent → TcpSocket → TcpSocket
unfolding on_event
on_events [] s = s
on_events (e ∷ es) s = on_events es (on_event e s)
