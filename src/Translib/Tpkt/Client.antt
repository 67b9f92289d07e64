-- ===== src/Translib/Tpkt/Client.antt =====
-- include/translib/tcpClientTPKT.h: the read loop `onRead()`, on fuel, one for each turn. It copies a
-- packet into four bytes of memory, and looks at a header without asking whether there is one; where
-- it writes or reads elsewhere the outcome is `invalid`.
use dbwrapper.Prelude.{
  ℕ, zero, suc, ◌+◌, ◌-◌, ◌/◌, ◌%◌, ◌^◌, ◌<◌, ◌≡◌, ap, ◌∙◌, true, false, List, [], ◌∷◌, ◌++◌, none,
  some, ltb, if◌then◌else◌, arith, length, length-append, take, take-append, drop,
}
use dbwrapper.Translib.Tpkt.{Evbuffer, Message, tpkt1_length, tpkt_header, packet_length, skip_byte}
use dbwrapper.Translib.Tpkt.RoundTrip.{IsEvbuffer, frame, plus_4, packet_length-header}

pub data ClientRead (B : Type 0) : Type 0 where
  finished : List Message → B → ClientRead B
  invalid : List Message → ClientRead B
  out_of_fuel : ClientRead B

abbrev pub hand_over : {B : Type 0} → Message → ClientRead B → ClientRead B
hand_over m (finished ms b) = finished (m ∷ ms) b
hand_over m (invalid ms) = invalid (m ∷ ms)
hand_over m out_of_fuel = out_of_fuel

module _ {B : Type 0} (E : Evbuffer B) where
  unfoldable pub on_read : ℕ → B → ClientRead B
  unfolding packet_length skip_byte
  on_read zero b = out_of_fuel
  on_read (suc fuel) b =
      let avail = E.get_length b % 2 ^ 32 in
      if ltb avail 1 then finished [] b else (elim (E.pullup b) [
        | none ↦ invalid []
        | some (b₀, b₁, b₂, b₃) ↦
            let b' = skip_byte E b₀ b in
            let total = packet_length b₁ b₂ b₃ in
            let len = (total + 2 ^ 32 - tpkt1_length) % 2 ^ 32 in
            if ltb avail total then finished [] b' else (elim (E.remove total b') [
              | none ↦ hand_over (record { msg = []; len = len }) (on_read fuel b')
              | some (bytes, b'') ↦
                  let later = on_read fuel b'' in
                  if ltb 4 (length bytes)
                  then invalid []
                  else hand_over (record { msg = drop tpkt1_length bytes; len = len }) later
            ])
      ])

module _ {B : Type 0} (E : Evbuffer B) (bytes : B → List ℕ) (e : IsEvbuffer E bytes) where
  -- If the buffer, shorter than 2 ^ 32 bytes, starts with a whole packet that has a payload, and
  -- with its header less than 2 ^ 24 bytes, the loop writes past its memory.
  pub on_read-overruns :
      (fuel : ℕ) (b : B) (payload rest : List ℕ)
      → bytes b ≡ frame payload ++ rest
      → 0 < length payload
      → length payload + 4 < 2 ^ 24
      → length (bytes b) < 2 ^ 32
      → on_read E (suc fuel) b ≡ invalid []
  unfolding on_read skip_byte tpkt_header
  on_read-overruns fuel b payload rest same full short fits =
      let n = length payload in
      let total = (n + 4) % 2 ^ 32 in
      let seen =
        e.pullup_some b 1 (total % 2 ^ 24 / 2 ^ 16) (total % 2 ^ 16 / 2 ^ 8) (total % 2 ^ 8)
          (payload ++ rest) same in
      let long : length (bytes b) ≡ plus_4 (n + length rest) =
        ap length same ∙ omega (arith, length-append payload rest) in
      let (b', read, left) = e.remove_some (plus_4 n) b (omega (arith, long)) in
      let some_bytes : ltb (E.get_length b % 2 ^ 32) 1 ≡ false =
        ground (arith, long, e.length_bytes b, fits) in
      let all_bytes : ltb (E.get_length b % 2 ^ 32) (plus_4 n) ≡ false =
        ground (arith, long, e.length_bytes b, fits) in
      let copied : ltb 4 (length (take (plus_4 n) (bytes b))) ≡ true =
        ap (λ bs. ltb 4 (length (take (plus_4 n) bs))) same
        ∙ ground (arith, ap length (take-append payload rest)) in
      rw (some_bytes, seen, packet_length-header n short, all_bytes, read, copied)

  -- A buffer with one to three bytes makes the loop read through a null pointer.
  pub on_read-partial_header :
      (fuel : ℕ) (b : B)
      → 0 < length (bytes b)
      → length (bytes b) < 4
      → on_read E (suc fuel) b ≡ invalid []
  unfolding on_read
  on_read-partial_header fuel b some_bytes few =
      let test : ltb (E.get_length b % 2 ^ 32) 1 ≡ false = ground (arith, e.length_bytes b) in
      rw (test, e.pullup_none b few)
