-- ===== src/Wire/Pieces.antt =====
-- Input events off a byte stream that is cut into pieces: what a reader does that keeps the bytes
-- of an event until it is whole, as src/termux_gamepad.c and src/evdev_preload.c both do.
-- `complete` is what it does with a whole event.
use termux_gamepad.Prelude.{
  ℕ, ◌+◌, ◌-◌, ◌≤◌, ◌<◌, ◌≡◌, refl, sym, ap, subst, ◌∙◌, arith, List, [], ◌∷◌, ◌++◌, ◌==◌, if_true,
  if_false, if◌then◌else◌, Bool-cases, inl, inr, length, length-append, take, take_all,
  append_assoc, All,
}
use termux_gamepad.Wire.{InputEvent, encode_event, encode_events, decode_event, input_event_size}
use termux_gamepad.Wire.RoundTrip.{IsEvent, decode_event-encode_event, length-encode_event}

-- Pieces that are not empty and reach at most to the end of an event, of which `used` bytes have
-- come.
abbrev pub IsCut : ℕ → List (List ℕ) → Type 0
IsCut used [] = Unit
IsCut used ([] ∷ rest) = ⊥
IsCut used ((x ∷ bytes) ∷ rest) =
    let now = used + length (x ∷ bytes) in
    (now ≤ input_event_size) × IsCut (if now == input_event_size then 0 else now) rest

abbrev pub joined : List (List ℕ) → List ℕ
joined [] = []
joined (bytes ∷ rest) = bytes ++ joined rest

module _ {S : Type 0} (complete : InputEvent → S → S) where
  -- A piece that leaves the buffer short of an event is kept, one that fills it is an event.
  abbrev pub filled : List ℕ → S → List ℕ × S
  filled raw s =
      if length raw == input_event_size then ([], complete (decode_event raw) s) else (raw, s)

  unfoldable pub take_piece : List ℕ → List ℕ × S → List ℕ × S
  take_piece bytes (buffer, s) = filled (buffer ++ take (input_event_size - length buffer) bytes) s

  unfoldable pub take_pieces : List (List ℕ) → List ℕ × S → List ℕ × S
  take_pieces [] q = q
  take_pieces (bytes ∷ rest) q = take_pieces rest (take_piece bytes q)

  -- One byte at a time.
  unfoldable pub feed : List ℕ → List ℕ × S → List ℕ × S
  feed [] q = q
  feed (b ∷ bytes) q = feed bytes (take_piece (b ∷ []) q)

  unfoldable pub after_events : List InputEvent → S → S
  after_events [] s = s
  after_events (e ∷ es) s = after_events es (complete e s)

  take_piece_lem :
      (bytes buffer : List ℕ) (s : S)
      → length buffer + length bytes ≤ input_event_size
      → take_piece bytes (buffer, s) ≡ filled (buffer ++ bytes) s
  unfolding take_piece
  take_piece_lem bytes buffer s fits =
      ap (λ now. filled (buffer ++ now) s)
        (take_all (input_event_size - length buffer) bytes (omega arith))

  -- A piece is its bytes, one after the other.
  feed_piece :
      (x : ℕ) (bytes buffer : List ℕ) (s : S)
      → length buffer + length (x ∷ bytes) ≤ input_event_size
      → take_piece (x ∷ bytes) (buffer, s) ≡ feed (x ∷ bytes) (buffer, s)
  unfolding feed
  feed_piece x [] buffer s h = refl
  feed_piece x (y ∷ bytes) buffer s h =
      let grown : length (buffer ++ (x ∷ [])) ≡ length buffer + 1 = length-append buffer (x ∷ []) in
      take_piece_lem (x ∷ y ∷ bytes) buffer s h
      ∙ ap (λ raw. filled raw s) (sym (append_assoc buffer (x ∷ []) (y ∷ bytes)))
      ∙ sym (take_piece_lem (y ∷ bytes) (buffer ++ (x ∷ [])) s (omega (arith, grown)))
      ∙ feed_piece y bytes (buffer ++ (x ∷ [])) s (omega (arith, grown))
      ∙ ap (feed (y ∷ bytes)) (
          sym (
            take_piece_lem (x ∷ []) buffer s (omega arith)
            ∙ if_false (length (buffer ++ (x ∷ [])) == input_event_size) _ _
                (ground (arith, grown))))

  feed-append : (xs ys : List ℕ) (q : List ℕ × S) → feed (xs ++ ys) q ≡ feed ys (feed xs q)
  unfolding feed
  feed-append [] ys q = refl
  feed-append (x ∷ xs) ys q = feed-append xs ys (take_piece (x ∷ []) q)

  length-take_piece :
      (bytes buffer : List ℕ) (s : S)
      → length buffer + length bytes ≤ input_event_size
      → length (take_piece bytes (buffer, s)).0
        ≡ (let now = length buffer + length bytes in if now == input_event_size then 0 else now)
  length-take_piece bytes buffer s h =
      elim (Bool-cases (length buffer + length bytes == input_event_size)) [
        | inl full ↦ rw (take_piece_lem bytes buffer s h, length-append buffer bytes, full)
        | inr short ↦
            rw (take_piece_lem bytes buffer s h, length-append buffer bytes, short)
              (length-append buffer bytes)
      ]

  take_pieces-feed :
      (pieces : List (List ℕ)) (buffer : List ℕ) (s : S)
      → IsCut (length buffer) pieces
      → take_pieces pieces (buffer, s) ≡ feed (joined pieces) (buffer, s)
  unfolding take_pieces feed
  take_pieces-feed [] buffer s h = refl
  take_pieces-feed ([] ∷ rest) buffer s h = absurd h
  take_pieces-feed ((x ∷ bytes) ∷ rest) buffer s (fits, later) =
      take_pieces-feed rest (take_piece (x ∷ bytes) (buffer, s)).0
        (take_piece (x ∷ bytes) (buffer, s)).1
        (subst (λ used. IsCut used rest) (sym (length-take_piece (x ∷ bytes) buffer s fits)) later)
      ∙ ap (feed (joined rest)) (feed_piece x bytes buffer s fits)
      ∙ sym (feed-append (x ∷ bytes) (joined rest) (buffer, s))

  feed_part :
      (bytes : List ℕ) (s : S)
      → length bytes ≤ input_event_size
      → feed bytes ([], s) ≡ filled bytes s
  unfolding feed
  feed_part [] s h = refl
  feed_part (x ∷ bytes) s h =
      sym (feed_piece x bytes [] s (omega arith)) ∙ take_piece_lem (x ∷ bytes) [] s (omega arith)

  feed-encode_events :
      (es : List InputEvent) (s : S)
      → All IsEvent es
      → feed (encode_events es) ([], s) ≡ ([], after_events es s)
  unfolding encode_events after_events feed
  feed-encode_events [] s v = refl
  feed-encode_events (e ∷ es) s v =
      let size = length-encode_event e in
      feed-append (encode_event e) (encode_events es) ([], s)
      ∙ ap (feed (encode_events es)) (
          feed_part (encode_event e) s (omega arith)
          ∙ if_true (length (encode_event e) == input_event_size) _ _ (ground (arith, size))
          ∙ ap (λ (e' : InputEvent). ([], complete e' s)) (decode_event-encode_event e v.0))
      ∙ feed-encode_events es (complete e s) v.1

  -- Whatever pieces a stream of events comes in, each event is completed once, in order, and the
  -- beginning of an event behind the last is kept.
  pub take_pieces_events :
      (es : List InputEvent) (partial : List ℕ) (pieces : List (List ℕ)) (s : S)
      → All IsEvent es
      → length partial < input_event_size
      → IsCut 0 pieces
      → joined pieces ≡ encode_events es ++ partial
      → take_pieces pieces ([], s) ≡ (partial, after_events es s)
  take_pieces_events es partial pieces s v short cut bytes =
      take_pieces-feed pieces [] s cut
      ∙ ap (λ (bs : List ℕ). feed bs ([], s)) bytes
      ∙ feed-append (encode_events es) partial ([], s)
      ∙ ap (feed partial) (feed-encode_events es s v)
      ∙ feed_part partial (after_events es s) (omega arith)
      ∙ if_false (length partial == input_event_size) _ _ (ground arith)
