-- ===== src/Translib/Tpkt/Whole.antt =====
-- Which packets one run of `onSessionRead` reads when only a part of what was sent has arrived.
use mathlib.Core.Path.{ap₂}
use dbwrapper.Prelude.{
  ℕ, zero, suc, ◌+◌, ◌%◌, ◌/◌, ◌^◌, ◌<◌, ◌≤◌, ◌≡◌, refl, ap, ◌∙◌, true, false, List, [], ◌∷◌, ◌++◌,
  map, some, ltb, arith, length, length-append, All, Bool-cases, inl, inr,
}
use dbwrapper.Translib.Tpkt.{
  Evbuffer, tpkt_header, packet_length, deliver, skip_byte, on_session_read,
}
use dbwrapper.Translib.Tpkt.RoundTrip.{
  IsEvbuffer, frame, frames, message, packet_length-header, read_frame,
}

-- A front that two ways to cut a list have in common.
append-split :
    (us vs xs ys : List ℕ)
    → xs ++ ys ≡ us ++ vs
    → length us ≤ length xs
    → (rest : List ℕ) × (xs ≡ us ++ rest) × (rest ++ ys ≡ vs)
append-split [] vs xs ys same le = (xs, refl, same)
append-split (u ∷ us) vs [] ys same le = let impossible : ⊥ = omega arith in elim impossible [ ]
append-split (u ∷ us) vs (x ∷ xs) ys same le =
    let tails : xs ++ ys ≡ us ++ vs = cc in
    let heads : x ≡ u = cc in
    let (rest, front, back) = append-split us vs xs ys tails (omega arith) in
    (rest, ap₂ (◌∷◌) heads front, back)

pub length-frames_right : (ds es : List (List ℕ)) → length (frames es) ≤ length (frames (ds ++ es))
unfolding frames
length-frames_right [] es = omega arith
length-frames_right (d ∷ ds) es =
    omega (arith, length-append (frame d) (frames (ds ++ es)), length-frames_right ds es)

module _ {B : Type 0} (E : Evbuffer B) where
  -- A turn of the loop at a packet that is not whole.
  part_packet :
      (fuel x y z : ℕ) (b : B)
      → E.pullup b ≡ some (1, x, y, z)
      → 0 < E.get_length b % 2 ^ 32
      → E.get_length b % 2 ^ 32 < packet_length x y z
      → on_session_read E (suc fuel) b ≡ some ([], b)
  unfolding on_session_read skip_byte
  part_packet fuel x y z b seen some_bytes short =
      let some_bytes' : ltb (E.get_length b % 2 ^ 32) 1 ≡ false = ground arith in
      let short' : ltb (E.get_length b % 2 ^ 32) (packet_length x y z) ≡ true = ground arith in
      rw (some_bytes', seen, short') refl

-- What is in a buffer is less than the first packet that is still to come.
abbrev pub IsPart : List (List ℕ) → List ℕ → Type 0
IsPart [] bs = Unit
IsPart (d ∷ ds) bs = length bs < length (frame d)

pub IsPart-nil : (ds : List (List ℕ)) (bs : List ℕ) → bs ≡ [] → IsPart ds bs
unfolding tpkt_header
IsPart-nil [] bs empty = tt
IsPart-nil (d ∷ ds) bs empty = omega (arith, ap length empty)

-- Of the packets that a buffer begins, in front of what is still to come, a run reads those that
-- are whole.
pub record ReadsWhole {B : Type 0} (E : Evbuffer B) (bytes : B → List ℕ) (fuel : ℕ) (b : B)
    (later : List ℕ) (ds : List (List ℕ)) : Type 0 where
  pub whole : List (List ℕ)
  pub others : List (List ℕ)
  pub after : B
  pub all : whole ++ others ≡ ds
  pub reads : on_session_read E fuel b ≡ some (map message whole, after)
  pub left : bytes after ++ later ≡ frames others
  pub part : IsPart others (bytes after)

module _ {B : Type 0} (E : Evbuffer B) (bytes : B → List ℕ) (e : IsEvbuffer E bytes) where
  -- A run that finds less than the first packet takes nothing.
  stalled :
      (fuel : ℕ) (b : B) (d rest later : List ℕ)
      → bytes b ++ later ≡ frame d ++ rest
      → length (bytes b) < length (frame d)
      → length d + 4 < 2 ^ 24
      → on_session_read E (suc fuel) b ≡ some ([], b)
  unfolding on_session_read tpkt_header
  stalled fuel b d rest later same part short = elim (Bool-cases (ltb (length (bytes b)) 4)) [
    | inl no_header ↦ ground (arith, e.pullup_none b (ground arith), e.length_bytes b)
    | inr header ↦
        let n = length d in
        let total = (n + 4) % 2 ^ 32 in
        let (bs, front, _) =
          append-split (tpkt_header n) (d ++ rest) (bytes b) later same (ground arith) in
        let seen =
          e.pullup_some b 1 (total % 2 ^ 24 / 2 ^ 16) (total % 2 ^ 16 / 2 ^ 8) (total % 2 ^ 8) bs
            front in
        let size = packet_length-header n short in
        part_packet E fuel _ _ _ b seen (ground (arith, e.length_bytes b))
          (ground (arith, size, e.length_bytes b))
  ]

  pub reads_whole :
      (fuel : ℕ) (ds : List (List ℕ)) (b : B) (later : List ℕ)
      → bytes b ++ later ≡ frames ds
      → All (λ d. length d + 4 < 2 ^ 24) ds
      → length (frames ds) < 2 ^ 32
      → length ds < fuel
      → ReadsWhole E bytes fuel b later ds
  unfolding on_session_read frames
  reads_whole zero ds b later same short fits enough =
      let impossible : ⊥ = omega arith in elim impossible [ ]
  reads_whole (suc fuel) [] b later same short fits enough =
      let empty : length (bytes b) ≡ 0 =
        ground (arith, length-append (bytes b) later, ap length same) in
      record {
        whole = [];
        others = [];
        after = b;
        all = refl;
        reads = ground (arith, empty, e.length_bytes b);
        left = same;
        part = tt;
      }
  reads_whole (suc fuel) (d ∷ ds) b later same short fits enough =
      let long = length-append (frame d) (frames ds) in
      let long' = length-append (bytes b) later in
      elim (Bool-cases (ltb (length (bytes b)) (length (frame d)))) [
        | inl part ↦
            let part' : length (bytes b) < length (frame d) = ground arith in
            record {
              whole = [];
              others = d ∷ ds;
              after = b;
              all = refl;
              reads = stalled fuel b d (frames ds) later same part' short.0;
              left = same;
              part = part';
            }
        | inr whole ↦
            let (rest, front, back) =
              append-split (frame d) (frames ds) (bytes b) later same (ground arith) in
            let (b', turn, left) =
              read_frame E bytes e fuel b d rest front short.0
                (omega (arith, fits, ap length same, long')) in
            let r =
              reads_whole fuel ds b' later (ap (λ bs. bs ++ later) left ∙ back) short.1
                (omega (arith, long)) (omega arith) in
            record {
              whole = d ∷ r.whole;
              others = r.others;
              after = r.after;
              all = ap (◌∷◌ d) r.all;
              reads = turn ∙ ap (deliver (message d)) r.reads;
              left = r.left;
              part = r.part;
            }
      ]
