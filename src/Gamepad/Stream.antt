-- ===== src/Gamepad/Stream.antt =====
-- The loop of `termux_gamepad_update` in src/termux_gamepad.c on a byte stream cut into pieces.
use termux_gamepad.Prelude.{
  ℕ, ◌+◌, ◌-◌, ◌≤◌, ◌<◌, ◌≡◌, refl, ap, ◌∙◌, List, [], ◌∷◌, ◌++◌, none, ◌==◌, length, take, All,
  if◌then◌else◌, Bool-cases, inl, inr,
}
use termux_gamepad.Wire.{InputEvent, input_event_size, encode_events}
use termux_gamepad.Wire.Pieces.{IsCut, joined, take_piece, take_pieces, take_pieces_events}
use termux_gamepad.Wire.Pieces
use termux_gamepad.Wire.RoundTrip.{IsEvent}
use termux_gamepad.Gamepad.Net.{RecvAnswer, got, recv_interrupted, recv_again, recv_fault}
use termux_gamepad.Gamepad.State.{PadState}
use termux_gamepad.Gamepad.Events.{Intake, process_event, take_bytes, event_loop}

-- `recv` gives no more than is asked for, while `used` bytes of the event have come, and meets
-- neither an error nor the end of the stream.
abbrev pub IsStream : ℕ → List RecvAnswer → Type 0
IsStream used [] = Unit
IsStream used (got [] ∷ rest) = ⊥
IsStream used (got (x ∷ bytes) ∷ rest) =
    let now = used + length (x ∷ bytes) in
    (now ≤ input_event_size) × IsStream (if now == input_event_size then 0 else now) rest
IsStream used (recv_interrupted ∷ rest) = IsStream used rest
IsStream used (recv_again ∷ rest) = Unit
IsStream used (recv_fault e ∷ rest) = ⊥

-- The bytes that come before `recv` would block.
abbrev pub delivered : List RecvAnswer → List ℕ
delivered [] = []
delivered (got bytes ∷ rest) = bytes ++ delivered rest
delivered (recv_interrupted ∷ rest) = delivered rest
delivered (recv_again ∷ rest) = []
delivered (recv_fault e ∷ rest) = []

-- What the events make of a state and a number of reports, one after the other.
unfoldable pub after_events : List InputEvent → PadState × ℕ → PadState × ℕ
after_events [] r = r
after_events (e ∷ es) (s, reports) =
    let (s', more) = process_event s e in after_events es (s', reports + more)

-- The loop's variables between two events.
abbrev pub between : PadState × ℕ → Intake
between (s, reports) = record { state = s; buffer = []; reports = reports }

-- A whole event.
abbrev counted : InputEvent → PadState × ℕ → PadState × ℕ
counted e (s, reports) = let (s', more) = process_event s e in (s', reports + more)

abbrev intake : List ℕ × (PadState × ℕ) → Intake
intake (buffer, (s, reports)) = record { state = s; buffer = buffer; reports = reports }

-- The pieces that `recv` gives before it would block.
abbrev pieces : List RecvAnswer → List (List ℕ)
pieces [] = []
pieces (got bytes ∷ rest) = bytes ∷ pieces rest
pieces (recv_interrupted ∷ rest) = pieces rest
pieces (recv_again ∷ rest) = []
pieces (recv_fault e ∷ rest) = []

joined-pieces : (answers : List RecvAnswer) → joined (pieces answers) ≡ delivered answers
joined-pieces [] = refl
joined-pieces (got bytes ∷ rest) = ap (◌++◌ bytes) (joined-pieces rest)
joined-pieces (recv_interrupted ∷ rest) = joined-pieces rest
joined-pieces (recv_again ∷ rest) = refl
joined-pieces (recv_fault e ∷ rest) = refl

IsStream→IsCut :
    (answers : List RecvAnswer) (used : ℕ) → IsStream used answers → IsCut used (pieces answers)
IsStream→IsCut [] used h = tt
IsStream→IsCut (got [] ∷ rest) used h = absurd h
IsStream→IsCut (got (x ∷ bytes) ∷ rest) used (fits, later) = (fits, IsStream→IsCut rest _ later)
IsStream→IsCut (recv_interrupted ∷ rest) used h = IsStream→IsCut rest used h
IsStream→IsCut (recv_again ∷ rest) used h = tt
IsStream→IsCut (recv_fault e ∷ rest) used h = absurd h

take_bytes-take_piece :
    (bytes : List ℕ) (q : List ℕ × (PadState × ℕ))
    → take_bytes bytes (intake q) ≡ intake (take_piece counted bytes q)
unfolding take_bytes take_piece
take_bytes-take_piece bytes (buffer, (s, reports)) =
    let raw = buffer ++ take (input_event_size - length buffer) bytes in
    elim (Bool-cases (length raw == input_event_size)) [ inl full ↦ rw full | inr short ↦ rw short ]

-- On a stream the loop does what its pieces do, and ends without an error.
event_loop-take_pieces :
    (answers : List RecvAnswer) (used : ℕ) (q : List ℕ × (PadState × ℕ))
    → IsStream used answers
    → event_loop answers (intake q) ≡ (none, intake (take_pieces counted (pieces answers) q))
unfolding event_loop take_pieces
event_loop-take_pieces [] used q h = refl
event_loop-take_pieces (got [] ∷ rest) used q h = absurd h
event_loop-take_pieces (got (x ∷ bytes) ∷ rest) used q (fits, later) =
    ap (event_loop rest) (take_bytes-take_piece (x ∷ bytes) q)
    ∙ event_loop-take_pieces rest _ (take_piece counted (x ∷ bytes) q) later
event_loop-take_pieces (recv_interrupted ∷ rest) used q h = event_loop-take_pieces rest used q h
event_loop-take_pieces (recv_again ∷ rest) used q h = refl
event_loop-take_pieces (recv_fault e ∷ rest) used q h = absurd h

after_events_lem :
    (es : List InputEvent) (r : PadState × ℕ) → Pieces.after_events counted es r ≡ after_events es r
unfolding Pieces.after_events after_events
after_events_lem [] r = refl
after_events_lem (e ∷ es) (s, reports) = after_events_lem es (counted e (s, reports))

-- The loop of `termux_gamepad_update` reads the events that the bridge queues: if the bytes that
-- come before the socket would block are those of some input events and the beginning of another,
-- then, whatever the sizes of the pieces they come in, the state and the number of reports are
-- those that the events give one after the other, the beginning is kept for the next call, and no
-- error is returned.
pub event_loop_events :
    (es : List InputEvent) (partial : List ℕ) (answers : List RecvAnswer) (r : PadState × ℕ)
    → All IsEvent es
    → length partial < input_event_size
    → IsStream 0 answers
    → delivered answers ≡ encode_events es ++ partial
    → event_loop answers (between r)
      ≡ (none, record (between (after_events es r)) { buffer = partial })
event_loop_events es partial answers r v short stream bytes =
    event_loop-take_pieces answers 0 ([], r) stream
    ∙ ap (λ (q : List ℕ × (PadState × ℕ)). (none, intake q))
        (take_pieces_events counted es partial (pieces answers) r v short
            (IsStream→IsCut answers 0 stream) (joined-pieces answers ∙ bytes)
          ∙ ap (λ (r' : PadState × ℕ). (partial, r')) (after_events_lem es r))
