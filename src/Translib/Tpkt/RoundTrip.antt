-- ===== src/Translib/Tpkt/RoundTrip.antt =====
-- What was framed is read back.
use dbwrapper.Prelude.{
  ℕ, zero, suc, ◌+◌, ◌-◌, ◌/◌, ◌%◌, ◌^◌, ◌<◌, ◌≤◌, ◌≡◌, ap, ◌∙◌, true, false, List, [], ◌∷◌, ◌++◌,
  map, none, some, ltb, arith, length, take, drop, length-append, take-append, drop-append, All,
}
use dbwrapper.Translib.Tpkt.{
  Evbuffer, Message, tpkt_header, packet_length, deliver, skip_byte, on_session_read,
}

-- The bytes that a packet with the payload has on the wire.
abbrev pub frame : List ℕ → List ℕ
frame payload = tpkt_header (length payload) ++ payload

unfoldable pub frames : List (List ℕ) → List ℕ
frames [] = []
frames (d ∷ ds) = frame d ++ frames ds

abbrev pub message : List ℕ → Message
message payload = record { msg = payload; len = length payload }

-- What the loop relies on of libevent, in terms of the bytes in a buffer.
pub record IsEvbuffer {B : Type 0} (E : Evbuffer B) (bytes : B → List ℕ) : Type 0 where
  pub length_bytes : (b : B) → E.get_length b ≡ length (bytes b)
  pub pullup_none : (b : B) → length (bytes b) < 4 → E.pullup b ≡ none
  pub pullup_some :
      (b : B) (b₀ b₁ b₂ b₃ : ℕ) (rest : List ℕ)
      → bytes b ≡ b₀ ∷ b₁ ∷ b₂ ∷ b₃ ∷ rest
      → E.pullup b ≡ some (b₀, b₁, b₂, b₃)
  pub remove_some :
      (n : ℕ) (b : B)
      → n ≤ length (bytes b)
      → (b' : B) × (E.remove n b ≡ some (take n (bytes b), b')) × (bytes b' ≡ drop n (bytes b))

abbrev pub plus_4 : ℕ → ℕ
plus_4 n = suc (suc (suc (suc n)))

-- The three bytes of the length give it back.
pub packet_length-header :
    (n : ℕ)
    → n + 4 < 2 ^ 24
    → let total = (n + 4) % 2 ^ 32 in
      packet_length (total % 2 ^ 24 / 2 ^ 16) (total % 2 ^ 16 / 2 ^ 8) (total % 2 ^ 8) ≡ plus_4 n
unfolding packet_length
packet_length-header n h = omega arith

module _ {B : Type 0} (E : Evbuffer B) where
  -- A turn of the loop at a whole packet.
  whole_packet :
      (fuel x y z n : ℕ) (b b' : B) (bs : List ℕ)
      → E.pullup b ≡ some (1, x, y, z)
      → packet_length x y z ≡ plus_4 n
      → plus_4 n ≤ E.get_length b % 2 ^ 32
      → n + 4 < 2 ^ 24
      → E.remove (plus_4 n) b ≡ some (bs, b')
      → on_session_read E (suc fuel) b
        ≡ deliver (record { msg = drop 4 bs; len = n }) (on_session_read E fuel b')
  unfolding on_session_read skip_byte
  whole_packet fuel x y z n b b' bs seen size long short read =
      let some_bytes : ltb (E.get_length b % 2 ^ 32) 1 ≡ false = ground arith in
      let all_bytes : ltb (E.get_length b % 2 ^ 32) (plus_4 n) ≡ false = ground arith in
      let len : (packet_length x y z + 2 ^ 32 - 4) % 2 ^ 32 ≡ n = omega (arith, size) in
      rw (some_bytes, seen, size, all_bytes, read)
        (ap (λ l. deliver (record { msg = drop 4 bs; len = l }) (on_session_read E fuel b')) len)

module _ {B : Type 0} (E : Evbuffer B) (bytes : B → List ℕ) (e : IsEvbuffer E bytes) where
  -- A turn of the loop where a whole frame stands in front.
  pub read_frame :
      (fuel : ℕ) (b : B) (payload rest : List ℕ)
      → bytes b ≡ frame payload ++ rest
      → length payload + 4 < 2 ^ 24
      → length (bytes b) < 2 ^ 32
      → (b' : B) × (on_session_read E (suc fuel) b
          ≡ deliver (message payload) (on_session_read E fuel b'))
        × (bytes b' ≡ rest)
  unfolding tpkt_header
  read_frame fuel b payload rest same short fits =
      let n = length payload in
      let total = (n + 4) % 2 ^ 32 in
      let seen =
        e.pullup_some b 1 (total % 2 ^ 24 / 2 ^ 16) (total % 2 ^ 16 / 2 ^ 8) (total % 2 ^ 8)
          (payload ++ rest) same in
      let long : length (bytes b) ≡ plus_4 (n + length rest) =
        ap length same ∙ omega (arith, length-append payload rest) in
      let (b', read, left) = e.remove_some (plus_4 n) b (omega (arith, long)) in
      let turn =
        whole_packet E fuel _ _ _ n b b' (take (plus_4 n) (bytes b)) seen
          (packet_length-header n short) (omega (arith, long, e.length_bytes b, fits)) short read in
      (
        b',
        turn
            ∙ ap (λ p. deliver (record { msg = p; len = n }) (on_session_read E fuel b'))
                (ap (λ bs. drop 4 (take (plus_4 n) bs)) same ∙ take-append payload rest),
        left ∙ ap (drop (plus_4 n)) same ∙ drop-append payload rest,
      )

  -- Packets that were framed one after another, each shorter than 2 ^ 24 bytes with its header and
  -- all together shorter than 2 ^ 32 bytes, are handed over one by one, in order and unchanged, and
  -- nothing is left in the buffer, on any fuel above the number of packets.
  pub on_session_read-frames :
      (fuel : ℕ) (payloads : List (List ℕ)) (b : B)
      → bytes b ≡ frames payloads
      → All (λ p. length p + 4 < 2 ^ 24) payloads
      → length (bytes b) < 2 ^ 32
      → length payloads < fuel
      → (b' : B) × (on_session_read E fuel b ≡ some (map message payloads, b')) × (bytes b' ≡ [])
  unfolding on_session_read frames
  on_session_read-frames zero payloads b same short fits enough = ground arith
  on_session_read-frames (suc fuel) [] b same short fits enough =
      let none_left : length (bytes b) ≡ 0 = ap length same in
      let test : ltb (E.get_length b % 2 ^ 32) 1 ≡ true =
        ground (arith, none_left, e.length_bytes b) in
      (b, rw test, same)
  on_session_read-frames (suc fuel) (p ∷ ps) b same short fits enough =
      let (b₁, turn, rest) = read_frame fuel b p (frames ps) same short.0 fits in
      let long : length (bytes b) ≡ length (frame p) + length (frames ps) =
        ap length same ∙ length-append (frame p) (frames ps) in
      let (b', reads, empty) =
        on_session_read-frames fuel ps b₁ rest short.1 (omega (arith, long, ap length rest))
          (omega arith) in
      (b', turn ∙ ap (deliver (message p)) reads, empty)
