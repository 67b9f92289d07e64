-- ===== src/Translib/TcpSocket/Buffer.antt =====
-- src/translib/tcpSocket.cpp: `getInputBufferLength`, `viewInputBuffer` of a header and
-- `readInputBuffer`, through which Tpkt reads, over the input buffer of the bufferevent, if there is one.
use dbwrapper.Prelude.{
  ℕ, suc, ◌%◌, ◌^◌, ◌≡◌, refl, Bool, true, false, List, [], Option, none, some, if◌then◌else◌,
}
use dbwrapper.Translib.Tpkt.{Evbuffer, Message, on_session_read}

module _ {B : Type 0} (E : Evbuffer B) where
  unfoldable pub get_input_buffer_length : Option B → ℕ
  get_input_buffer_length none = 0
  get_input_buffer_length (some b) = E.get_length b % 2 ^ 32

  unfoldable pub view_input_buffer : Option B → Option (ℕ × ℕ × ℕ × ℕ)
  view_input_buffer none = none
  view_input_buffer (some b) = E.pullup b

  -- What it returns, the bytes, and the buffer.
  unfoldable pub read_input_buffer : ℕ → Option B → Bool × List ℕ × Option B
  read_input_buffer size none = (false, [], none)
  read_input_buffer size (some b) = elim (E.remove size b) [
    | none ↦ (false, [], some b)
    | some (bytes, b') ↦ (true, bytes, some b')
  ]

  -- The calls of a socket in place of those of its buffer.
  abbrev pub through_socket : Evbuffer (Option B)
  through_socket = record {
    get_length = get_input_buffer_length;
    pullup = view_input_buffer;
    remove = λ size b.
        let (ok, bytes, b') = read_input_buffer size b in if ok then some (bytes, b') else none;
  }

  abbrev pub on_socket : Option (List Message × B) → Option (List Message × Option B)
  on_socket none = none
  on_socket (some (ms, b)) = some (ms, some b)

  -- Without a bufferevent the loop ends at once and reads nothing.
  on_session_read-none :
      (fuel : ℕ) → on_session_read through_socket (suc fuel) none ≡ some ([], none)
  unfolding on_session_read get_input_buffer_length
  on_session_read-none fuel = refl
