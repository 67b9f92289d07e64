-- ===== src/Translib/Tpkt.antt =====
-- include/translib/tcpServerTPKT.h: `sendWithTPKT`, the read loop `onSessionRead`, and the constants
-- of include/translib/define.h. The client of include/translib/tcpClientTPKT.h sends in the same way; its read
-- loop is in Tpkt/Client.
-- A session's input buffer is libevent's: `Evbuffer` has the calls that TcpSocket makes of it. The
-- loop runs on fuel, one for each turn, and is `none` without.
pub mod RoundTrip
pub mod Edges
pub mod Streaming
pub mod Whole
pub mod Client
pub mod Port
use dbwrapper.Prelude.{
  ℕ, zero, suc, ◌+◌, ◌-◌, ◌*◌, ◌/◌, ◌%◌, ◌^◌, Bool, true, false, List, [], ◌∷◌, ◌++◌, Option, none,
  some, ltb, ◌==◌, if◌then◌else◌, drop,
}

-- `evbuffer_get_length`, `evbuffer_pullup` of TPKT1_LENGTH bytes, and `evbuffer_remove` of a number
-- of bytes, `none` where it returns -1.
pub record Evbuffer (B : Type 0) : Type 0 where
  pub get_length : B → ℕ
  pub pullup : B → Option (ℕ × ℕ × ℕ × ℕ)
  pub remove : ℕ → B → Option (List ℕ × B)

-- What `onRead` is called with: the bytes after the header, and `len`.
pub record Message : Type 0 where
  pub msg : List ℕ
  pub len : ℕ

-- TPKT1_LENGTH and TPKT_VERSION1_LOW_BYTE
abbrev pub tpkt1_length : ℕ
tpkt1_length = 4

abbrev pub tpkt_version1_low_byte : ℕ
tpkt_version1_low_byte = 1

-- `tpkt_header`
unfoldable pub tpkt_header : ℕ → List ℕ
tpkt_header length =
    let total = (length + tpkt1_length) % 2 ^ 32 in
    tpkt_version1_low_byte ∷ total % 2 ^ 24 / 2 ^ 16 ∷ total % 2 ^ 16 / 2 ^ 8 ∷ total % 2 ^ 8 ∷ []

-- `sendWithTPKT`, where `send` is the session's, on a state `W`.
unfoldable pub send_with_tpkt : {W : Type 0} → (List ℕ → W → Bool × W) → List ℕ → ℕ → W → Bool × W
unfolding tpkt_header
send_with_tpkt send payload length w =
    let (ret, w') = send (tpkt_header length) w in if ret then send payload w' else (false, w')

unfoldable pub packet_length : ℕ → ℕ → ℕ → ℕ
packet_length b₁ b₂ b₃ = b₁ * 2 ^ 16 + b₂ * 2 ^ 8 + b₃

abbrev pub deliver : {B : Type 0} → Message → Option (List Message × B) → Option (List Message × B)
deliver m none = none
deliver m (some (ms, b)) = some (m ∷ ms, b)

module _ {B : Type 0} (E : Evbuffer B) where
  -- One byte is read where the magic number is lost.
  unfoldable pub skip_byte : ℕ → B → B
  skip_byte b₀ b =
      if b₀ == tpkt_version1_low_byte
      then b
      else (elim (E.remove 1 b) [ none ↦ b | some (_, b') ↦ b' ])

  -- `onSessionRead`: the messages that it hands to `onRead`, and the buffer.
  unfoldable pub on_session_read : ℕ → B → Option (List Message × B)
  unfolding packet_length skip_byte
  on_session_read zero b = none
  on_session_read (suc fuel) b =
      let length = E.get_length b % 2 ^ 32 in
      if ltb length 1 then some ([], b) else (elim (E.pullup b) [
        | none ↦ some ([], b)
        | some (b₀, b₁, b₂, b₃) ↦
            let b' = skip_byte b₀ b in
            let total = packet_length b₁ b₂ b₃ in
            if ltb length total then some ([], b') else (elim (E.remove total b') [
              | none ↦ on_session_read fuel b'
              | some (bytes, b'') ↦
                  deliver
                    (record {
                      msg = drop tpkt1_length bytes;
                      len = (total + 2 ^ 32 - tpkt1_length) % 2 ^ 32;
                    })
                    (on_session_read fuel b'')
            ])
      ])
