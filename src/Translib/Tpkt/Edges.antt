-- ===== src/Translib/Tpkt/Edges.antt =====
-- What a send puts on the wire, and a packet that claims to have no bytes.
use mathlib.Core.List.{append_assoc}
use dbwrapper.Prelude.{
  ℕ, zero, suc, ◌%◌, ◌^◌, ◌<◌, ◌≡◌, refl, ap, ◌∙◌, Bool, true, false, List, ◌∷◌, ◌++◌, none, ltb,
  arith, length,
}
use dbwrapper.Translib.Tpkt.{
  Evbuffer, tpkt_header, packet_length, send_with_tpkt, skip_byte, on_session_read,
}
use dbwrapper.Translib.Tpkt.RoundTrip.{IsEvbuffer, frame}

-- A `send` that appends to what is on the wire when it returns true.
abbrev pub IsAppending : {W : Type 0} → (List ℕ → W → Bool × W) → (W → List ℕ) → Type 0
IsAppending send wire =
    (bs : List ℕ) (w : _) → (send bs w).0 ≡ true → wire (send bs w).1 ≡ wire w ++ bs

-- If every `send` that returns true appends its bytes and no other, and `sendWithTPKT` returns true,
-- then the wire has the frame of the data after what it had.
pub send_with_tpkt-frame :
    {W : Type 0} (send : List ℕ → W → Bool × W) (wire : W → List ℕ) (payload : List ℕ) (w : W)
    → IsAppending send wire
    → (send_with_tpkt send payload (length payload) w).0 ≡ true
    → wire (send_with_tpkt send payload (length payload) w).1 ≡ wire w ++ frame payload
unfolding send_with_tpkt tpkt_header
send_with_tpkt-frame send wire payload w appends sent =
    let header = tpkt_header (length payload) in
    let w₁ = (send header w).1 in
    ground (arith, appends header w, appends payload w₁, append_assoc (wire w) header payload)

-- If the buffer, shorter than 2 ^ 32 bytes, starts with the magic number and a length of zero, the loop never ends: on any fuel
-- there is no result.
pub on_session_read-endless :
    {B : Type 0} (E : Evbuffer B) (bytes : B → List ℕ) (fuel : ℕ) (b : B) (rest : List ℕ)
    → IsEvbuffer E bytes
    → bytes b ≡ 1 ∷ 0 ∷ 0 ∷ 0 ∷ rest
    → length (bytes b) < 2 ^ 32
    → on_session_read E fuel b ≡ none
unfolding on_session_read skip_byte packet_length
on_session_read-endless E bytes zero b rest e same fits = refl
on_session_read-endless E bytes (suc fuel) b rest e same fits =
    let seen = e.pullup_some b 1 0 0 0 rest same in
    let (b', read, left) = e.remove_some 0 b (omega arith) in
    let same' : bytes b' ≡ 1 ∷ 0 ∷ 0 ∷ 0 ∷ rest = left ∙ same in
    let later =
      on_session_read-endless E bytes fuel b' rest e same' (omega (arith, ap length left, fits)) in
    let long : length (bytes b) ≡ suc (suc (suc (suc (length rest)))) = ap length same in
    let some_bytes : ltb (E.get_length b % 2 ^ 32) 1 ≡ false =
      ground (arith, long, e.length_bytes b) in
    let all_bytes : ltb (E.get_length b % 2 ^ 32) 0 ≡ false = ground arith in
    rw (some_bytes, seen, all_bytes, read, later)
