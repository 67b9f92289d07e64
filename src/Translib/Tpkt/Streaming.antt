-- ===== src/Translib/Tpkt/Streaming.antt =====
-- Packets that come in pieces: libevent appends what arrives to the input buffer of the session, and
-- runs its read callback, which is `onSessionRead`, after each piece.
use mathlib.Core.List.{append_assoc, append-nil, flatten, map-append}
use mathlib.Core.Path.{subst}
use dbwrapper.Prelude.{
  ℕ, ◌+◌, ◌^◌, ◌<◌, ◌≡◌, refl, sym, ap, ◌∙◌, Bool, ◌&&◌, true, List, [], ◌∷◌, ◌++◌, map, Option,
  none, some, arith, length, length-append, All, All-right,
}
use dbwrapper.Translib.Tpkt.{Evbuffer, Message, send_with_tpkt, on_session_read}
use dbwrapper.Translib.Tpkt.RoundTrip.{IsEvbuffer, frame, frames, message}
use dbwrapper.Translib.Tpkt.Edges.{IsAppending, send_with_tpkt-frame}
use dbwrapper.Translib.Tpkt.Whole.{IsPart, IsPart-nil, reads_whole, length-frames_right}

abbrev pub followed_by :
    {B : Type 0} → List Message → Option (List Message × B) → Option (List Message × B)
followed_by ms none = none
followed_by ms (some (ns, b)) = some (ms ++ ns, b)

module _ {B : Type 0} (E : Evbuffer B) where
  -- Each piece is appended, and `onSessionRead` runs: the messages of all runs, in order.
  unfoldable pub read_pieces : (List ℕ → B → B) → ℕ → List (List ℕ) → B → Option (List Message × B)
  read_pieces append fuel [] b = some ([], b)
  read_pieces append fuel (c ∷ cs) b = elim (on_session_read E fuel (append c b)) [
    | none ↦ none
    | some (ms, b') ↦ followed_by ms (read_pieces append fuel cs b')
  ]

  read_pieces-cons :
      (append : List ℕ → B → B) (fuel : ℕ) (c : List ℕ) (cs : List (List ℕ)) (b b' b'' : B)
      (ms ns : List Message)
      → on_session_read E fuel (append c b) ≡ some (ms, b')
      → read_pieces append fuel cs b' ≡ some (ns, b'')
      → read_pieces append fuel (c ∷ cs) b ≡ some (ms ++ ns, b'')
  unfolding read_pieces
  read_pieces-cons append fuel c cs b b' b'' ms ns first later = ground (arith, first, later)

module _ {B : Type 0} (E : Evbuffer B) (bytes : B → List ℕ) (e : IsEvbuffer E bytes) where
  -- If the buffer and the pieces make up whole packets, and the buffer has none of them whole yet, the
  -- runs read all of them.
  pub read_on :
      (append : List ℕ → B → B)
      → ((c : List ℕ) (b : B) → bytes (append c b) ≡ bytes b ++ c)
      → (fuel : ℕ) (ds : List (List ℕ)) (pieces : List (List ℕ)) (b : B) → IsPart ds (bytes b)
      → bytes b ++ flatten pieces ≡ frames ds
      → All (λ d. length d + 4 < 2 ^ 24) ds
      → length (frames ds) < 2 ^ 32
      → length ds < fuel
      → (b' : B) × (read_pieces E append fuel pieces b ≡ some (map message ds, b'))
        × (bytes b' ≡ [])
  unfolding read_pieces flatten frames
  read_on append appends fuel [] [] b part same short fits enough =
      (b, refl, sym (append-nil (bytes b)) ∙ same)
  read_on append appends fuel (d ∷ ds) [] b part same short fits enough =
      let impossible : ⊥ = omega (
        arith,
        length-append (bytes b) [],
        ap length same,
        length-append (frame d) (frames ds),
        part,
      ) in
      elim impossible [ ]
  read_on append appends fuel ds (c ∷ cs) b part same short fits enough =
      let more : bytes (append c b) ++ flatten cs ≡ frames ds =
        ap (λ bs. bs ++ flatten cs) (appends c b) ∙ append_assoc (bytes b) c (flatten cs) ∙ same in
      let r = reads_whole E bytes e fuel ds (append c b) (flatten cs) more short fits enough in
      let count = length-append r.whole r.others in
      let size = length-frames_right r.whole r.others in
      let short' =
        All-right _ r.whole r.others (subst (All (λ d. length d + 4 < 2 ^ 24)) (sym r.all) short) in
      let fits' : length (frames r.others) < 2 ^ 32 =
        omega (arith, size, ap (λ xs. length (frames xs)) r.all) in
      let (b', rest, empty) =
        read_on append appends fuel r.others cs r.after r.part r.left short' fits'
          (omega (arith, count, ap length r.all)) in
      let joined : map message r.whole ++ map message r.others ≡ map message ds =
        sym (map-append message r.whole r.others) ∙ ap (map message) r.all in
      let runs = read_pieces-cons E append fuel c cs b r.after b' _ _ r.reads rest in
      (b', runs ∙ ap (λ ms. some (ms, b')) joined, empty)

-- Calls of `sendWithTPKT`, one after another: whether all returned true.
unfoldable pub send_packets : {W : Type 0} → (List ℕ → W → Bool × W) → List (List ℕ) → W → Bool × W
send_packets send [] w = (true, w)
send_packets send (d ∷ ds) w =
    let (ok, w') = send_with_tpkt send d (length d) w in
    let (ok', w'') = send_packets send ds w' in (ok && ok', w'')

send_packets-frames :
    {W : Type 0} (send : List ℕ → W → Bool × W) (wire : W → List ℕ) (ds : List (List ℕ)) (w : W)
    → IsAppending send wire
    → (send_packets send ds w).0 ≡ true
    → wire (send_packets send ds w).1 ≡ wire w ++ frames ds
unfolding send_packets frames
send_packets-frames send wire [] w appends sent = sym (append-nil (wire w))
send_packets-frames send wire (d ∷ ds) w appends sent =
    let r = send_with_tpkt send d (length d) w in
    let first = send_with_tpkt-frame send wire d w appends (ground arith) in
    let later = send_packets-frames send wire ds r.1 appends (ground arith) in
    later ∙ ap (λ bs. bs ++ frames ds) first ∙ append_assoc (wire w) (frame d) (frames ds)

-- Data is sent with `sendWithTPKT`, each shorter than 2 ^ 24 bytes with its header and all together
-- shorter than 2 ^ 32 bytes, over an empty wire, and every call returns true. If what is then on the
-- wire arrives in pieces, wherever it is cut, `onSessionRead`, run after each piece on an empty buffer,
-- hands over the data one by one, in order and unchanged, and leaves nothing in the buffer, on any fuel
-- above the number of packets.
pub read_pieces-send_packets :
    {W B : Type 0} (send : List ℕ → W → Bool × W) (wire : W → List ℕ) (E : Evbuffer B)
    (bytes : B → List ℕ) (append : List ℕ → B → B) (fuel : ℕ) (ds pieces : List (List ℕ)) (w : W)
    (b : B)
    → IsAppending send wire
    → IsEvbuffer E bytes
    → ((c : List ℕ) (b' : B) → bytes (append c b') ≡ bytes b' ++ c)
    → wire w ≡ []
    → (send_packets send ds w).0 ≡ true
    → flatten pieces ≡ wire (send_packets send ds w).1
    → bytes b ≡ []
    → All (λ d. length d + 4 < 2 ^ 24) ds
    → length (flatten pieces) < 2 ^ 32
    → length ds < fuel
    → (b' : B) × (read_pieces E append fuel pieces b ≡ some (map message ds, b')) × (bytes b' ≡ [])
read_pieces-send_packets send wire E bytes append fuel ds pieces w b appending e appends clean sent
      cut empty short fits enough =
    let sends = send_packets-frames send wire ds w appending sent in
    let framed : flatten pieces ≡ frames ds = cut ∙ sends ∙ ap (λ bs. bs ++ frames ds) clean in
    let fits' : length (frames ds) < 2 ^ 32 = omega (arith, fits, ap length framed) in
    let same : bytes b ++ flatten pieces ≡ frames ds =
      ap (λ bs. bs ++ flatten pieces) empty ∙ framed in
    read_on E bytes e append appends fuel ds pieces b (IsPart-nil ds (bytes b) empty) same short
      fits' enough
