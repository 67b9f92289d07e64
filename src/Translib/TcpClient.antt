-- ===== src/Translib/TcpClient.antt =====
-- src/translib/tcpClient.cpp: `TcpClient`. What libevent and the system return is given; `live` counts
-- the bufferevents that were made and not freed, `closes` the times that a descriptor was closed, and
-- `notes` are the callbacks that the user writes.
pub mod Tidy
use dbwrapper.Prelude.{ℕ, ◌+◌, ◌-◌, Bool, true, false, ◌||◌, List, [], ◌∷◌, ◌++◌, if◌then◌else◌}

-- `onConnected`, with its argument, and `onDisconnected`.
pub data ClientNote : Type 0 where
  on_connected : ℕ → ClientNote
  on_disconnected : ClientNote

pub record TcpClient : Type 0 where
  -- Whether there is a bufferevent.
  pub bev : Bool
  pub is_connected : Bool
  pub live : ℕ
  pub closes : ℕ
  pub notes : List ClientNote

-- `TcpClient(loop)`
unfoldable pub new_client : TcpClient
new_client = record { bev = false; is_connected = false; live = 0; closes = 0; notes = [] }

-- `bufferevent_free` of the bufferevent, which BEV_OPT_CLOSE_ON_FREE makes close the descriptor `open`.
unfoldable pub free_bev : Bool → TcpClient → TcpClient
free_bev has_socket s = record s {
  bev = false;
  live = s.live - 1;
  closes = if has_socket then s.closes + 1 else s.closes;
}

-- `connect`, given whether `bufferevent_socket_new`, `bufferevent_enable` and
-- `bufferevent_socket_connect` succeed.
unfoldable pub connect : Bool → Bool → Bool → TcpClient → Bool × TcpClient
unfolding free_bev
connect made enabled reached s =
    let made_bev : TcpClient = record s { bev = true; live = s.live + 1 } in
    if s.bev
    then (false, s)
    else (if made
        then (if enabled
            then (if reached then (true, made_bev) else (false, free_bev false made_bev))
            else (false, free_bev false made_bev))
        else (false, s))

-- The flags of an event that the code tests, and the error of the socket with the test whether it is
-- ECONNREFUSED or ETIMEDOUT.
pub record Event : Type 0 where
  pub eof : Bool
  pub error : Bool
  pub timeout : Bool
  pub connected : Bool
  pub socket_error : ℕ
  pub is_refused : Bool

-- `handleEvent`
unfoldable pub handle_event : Event → TcpClient → TcpClient
unfolding free_bev
handle_event e s =
    let closed : TcpClient = record s {
      closes = s.closes + 1;
      is_connected = false;
      notes = s.notes ++ on_disconnected ∷ [];
    } in
    if e.eof || (e.error || e.timeout)
    then free_bev true closed
    else if e.connected
    then (if e.is_refused
        then record s { notes = s.notes ++ on_connected e.socket_error ∷ [] }
        else record s { is_connected = true; notes = s.notes ++ on_connected 0 ∷ [] })
    else s
