-- ===== src/Gamepad/Net.antt =====
-- The socket calls of src/termux_gamepad.c: `connect_socket`, `send_all`, `receive_all` and
-- `send_command`, on the answers that the system will give.
use termux_gamepad.Prelude.{
  ℕ, zero, suc, ◌-◌, Bool, true, false, List, [], ◌∷◌, ◌++◌, ℤ, pos, negsuc, ltb, if◌then◌else◌,
  length, take, drop,
}
use termux_gamepad.Wire.{ControlMessage, control_magic, control_version, encode_control}

-- errno values of Linux
abbrev pub epipe : ℕ
epipe = 32

abbrev pub econnreset : ℕ
econnreset = 104

abbrev pub eagain : ℕ
eagain = 11

abbrev pub einval : ℕ
einval = 22

abbrev pub enodev : ℕ
enodev = 19

abbrev pub eproto : ℕ
eproto = 71

abbrev pub enametoolong : ℕ
enametoolong = 36

abbrev pub econnrefused : ℕ
econnrefused = 111

-- `-errno`
abbrev pub minus : ℕ → ℤ
minus zero = pos 0
minus (suc n) = negsuc n

-- What `send` answers: the bytes that it took, EINTR, EAGAIN (with whether the `poll` that follows
-- finds the socket writable, and errno behind it), or another errno.
pub data SendAnswer : Type 0 where
  took : ℕ → SendAnswer
  send_interrupted : SendAnswer
  send_blocked : Bool → ℕ → SendAnswer
  send_fault : ℕ → SendAnswer

-- What `recv` answers: bytes (none at the end of the stream), EINTR, EAGAIN, or another errno.
pub data RecvAnswer : Type 0 where
  got : List ℕ → RecvAnswer
  recv_interrupted recv_again : RecvAnswer
  recv_fault : ℕ → RecvAnswer

-- What `socket` and `connect` answer: no socket; a socket that does not connect; one that does.
pub data Outcome : Type 0 where
  no_socket : ℕ → Outcome
  not_connected : ℕ → ℕ → Outcome
  connected : ℕ → Outcome

-- One attempt to reach the bridge: how it goes, the answers to what is sent and received before
-- the stream is in use, and the status of `set_nonblocking`.
pub record Dial : Type 0 where
  pub outcome : Outcome
  pub sends : List SendAnswer
  pub recvs : List RecvAnswer
  pub nonblocking : ℤ

-- The attempt after the last: the bridge is not there.
abbrev pub refused : Dial
refused = record {
  outcome = not_connected 3 econnrefused;
  sends = [];
  recvs = [];
  nonblocking = pos 0;
}

-- `sizeof(address.sun_path)`
abbrev pub sun_path_size : ℕ
sun_path_size = 108

-- `path` is the C string's bytes; the second list is the descriptors that are closed.
unfoldable pub connect_socket : List ℕ → Outcome → ℤ × List ℤ
connect_socket path outcome =
    if ltb (length path) sun_path_size
    then elim outcome [
      | no_socket e ↦ (minus e, [])
      | not_connected fd e ↦ (minus e, pos fd ∷ [])
      | connected fd ↦ (pos fd, [])
    ]
    else (minus enametoolong, [])

-- The status, and the bytes that the socket took.
unfoldable pub send_all : List SendAnswer → List ℕ → ℤ × List ℕ
send_all answers [] = (pos 0, [])
send_all [] (b ∷ bytes) = (minus eagain, [])
send_all (took zero ∷ rest) (b ∷ bytes) = (minus epipe, [])
send_all (took (suc n) ∷ rest) (b ∷ bytes) =
    let (status, sent) = send_all rest (drop (suc n) (b ∷ bytes)) in
    (status, take (suc n) (b ∷ bytes) ++ sent)
send_all (send_interrupted ∷ rest) (b ∷ bytes) = send_all rest (b ∷ bytes)
send_all (send_blocked true e ∷ rest) (b ∷ bytes) = send_all rest (b ∷ bytes)
send_all (send_blocked false e ∷ rest) (b ∷ bytes) = (minus e, [])
send_all (send_fault e ∷ rest) (b ∷ bytes) = (minus e, [])

-- `size` bytes are still wanted. The socket blocks, so EAGAIN is an error like any other; after the
-- last answer the stream is at its end.
unfoldable pub receive_all : List RecvAnswer → ℕ → ℤ × List ℕ
receive_all answers zero = (pos 0, [])
receive_all [] (suc size) = (minus econnreset, [])
receive_all (got [] ∷ rest) (suc size) = (minus econnreset, [])
receive_all (got (x ∷ bytes) ∷ rest) (suc size) =
    let now = take (suc size) (x ∷ bytes) in
    let (status, later) = receive_all rest (suc size - length now) in (status, now ++ later)
receive_all (recv_interrupted ∷ rest) (suc size) = receive_all rest (suc size)
receive_all (recv_again ∷ rest) (suc size) = (minus eagain, [])
receive_all (recv_fault e ∷ rest) (suc size) = (minus e, [])

abbrev pub command_message : ℕ → ℕ → ℕ → ℕ → ControlMessage
command_message command low high duration_ms = record {
  magic = control_magic;
  version = control_version;
  command = command;
  low_frequency = low;
  high_frequency = high;
  duration_ms = duration_ms;
}

unfoldable pub send_command : List SendAnswer → ℕ → ℕ → ℕ → ℕ → ℤ × List ℕ
send_command answers command low high duration_ms =
    send_all answers (encode_control (command_message command low high duration_ms))
