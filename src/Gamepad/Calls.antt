-- ===== src/Gamepad/Calls.antt =====
-- `termux_gamepad_create` and `termux_gamepad_update` of src/termux_gamepad.c on coherent handles.
use termux_gamepad.Prelude.{
  ℕ, ◌-◌, ◌<◌, ◌≡◌, refl, ap, arith, Bool, true, not, ◌&&◌, List, [], ◌∷◌, ◌++◌, Option, none, some,
  ℤ, pos, negsuc, ltb, ◌==◌, is_nonneg, if_cases, if◌then◌else◌, length, length-append, length-take,
  take,
}
use termux_gamepad.Wire.{input_event_size, hotplug_message_size}
use termux_gamepad.Gamepad.Net.{
  Dial, RecvAnswer, got, recv_interrupted, recv_again, recv_fault, sun_path_size,
}
use termux_gamepad.Gamepad.State.{Gamepad}
use termux_gamepad.Gamepad.Events.{Intake, take_bytes, event_loop}
use termux_gamepad.Gamepad.Hotplug.{close_event_stream, open_event_stream, refresh}
use termux_gamepad.Gamepad.Api.{create, fresh, choose_path, update, with_intake, finish_update}
use termux_gamepad.Gamepad.Handle.{
  Ready, close_event_stream-Coherent, close_event_stream_rest, open_event_stream-Within,
  open_monitor-Ready,
}
use termux_gamepad.Gamepad.Coherence.{refresh-Ready}

abbrev Short : Intake → Type 0
Short q = length q.buffer < input_event_size

take_bytes-Short : (bytes : List ℕ) (q : Intake) → Short q → Short (take_bytes bytes q)
unfolding take_bytes
take_bytes-Short bytes q h =
    let room = input_event_size - length q.buffer in
    if_cases Short (length (q.buffer ++ take room bytes) == input_event_size) _ _ (λ _. omega arith)
      (λ waits. ground (arith, length-append q.buffer (take room bytes), length-take room bytes))

event_loop-Short :
    (answers : List RecvAnswer) (q : Intake) → Short q → Short (event_loop answers q).1
unfolding event_loop
event_loop-Short [] q h = h
event_loop-Short (got [] ∷ rest) q h = h
event_loop-Short (got (x ∷ bytes) ∷ rest) q h =
    event_loop-Short rest _ (take_bytes-Short (x ∷ bytes) q h)
event_loop-Short (recv_interrupted ∷ rest) q h = event_loop-Short rest q h
event_loop-Short (recv_again ∷ rest) q h = h
event_loop-Short (recv_fault e ∷ rest) q h = h

closed-Ready : (g : Gamepad) → Ready g → Ready (close_event_stream g)
closed-Ready g v = (close_event_stream-Coherent g, rw (ap length (close_event_stream_rest g).1) v.1)

with_intake-Ready :
    (g : Gamepad) (q : Intake)
    → is_nonneg g.event_fd ≡ true
    → Short q
    → Ready g
    → Ready (with_intake g q)
with_intake-Ready g q streams h v =
    (record { served = v.0.served; at_rest = λ e. cc; event_waits = h }, v.1)

finish_update-Ready :
    (r : Option ℤ × Intake) (g : Gamepad)
    → is_nonneg g.event_fd ≡ true
    → Short r.1
    → Ready g
    → Ready (finish_update r g).1
finish_update-Ready (none, q) g streams h v = with_intake-Ready g q streams h v
finish_update-Ready (some (pos n), q) g streams h v =
    closed-Ready (with_intake g q) (with_intake-Ready g q streams h v)
finish_update-Ready (some (negsuc n), q) g streams h v =
    closed-Ready (with_intake g q) (with_intake-Ready g q streams h v)

-- A handle that is coherent stays so over `termux_gamepad_update`, whatever the bridge sends and
-- however the calls on its sockets fail: an event stream is open only while a gamepad is present;
-- while none is open the state is that of a gamepad at rest; and neither buffer holds a whole
-- message, so there is always room to read into.
pub update-Ready :
    (monitor_answers event_answers : List RecvAnswer) (g : Gamepad)
    → Ready g
    → Ready (update monitor_answers event_answers g).1
unfolding update
update-Ready monitor_answers event_answers g v =
    if_cases (λ (r : ℤ × Gamepad). Ready r.1) (is_nonneg g2.event_fd) _ _
      (λ streams.
        finish_update-Ready _ g2 streams (event_loop-Short event_answers _ opened.0.event_waits)
          opened)
      (λ _.
        if_cases (λ (r : ℤ × Gamepad). Ready r.1) (is_nonneg (refresh monitor_answers g).0) _ _
          (λ _. opened) (λ _. opened))
  where
    g1 : Gamepad
    g1 = (refresh monitor_answers g).1

    g2 : Gamepad
    g2 =
        if not (is_nonneg g1.event_fd) && not (g1.descriptor.present == 0)
        then (open_event_stream g1).1
        else g1

    refreshed : Ready g1
    refreshed = refresh-Ready monitor_answers g v

    opened : Ready g2
    opened =
        if_cases Ready (not (is_nonneg g1.event_fd) && not (g1.descriptor.present == 0)) _ _
          (λ h. open_event_stream-Within hotplug_message_size g1 (ground arith) refreshed)
          (λ _. refreshed)

fresh-Ready : (path : List ℕ) (dials : List Dial) → Ready (fresh path dials)
fresh-Ready path dials =
    (record { served = λ e. cc; at_rest = λ e. refl; event_waits = omega arith }, omega arith)

abbrev pub ReadyIfAny : Option Gamepad → Type 0
ReadyIfAny none = Unit
ReadyIfAny (some g) = Ready g

-- A handle that `termux_gamepad_create` gives is coherent, whether the bridge is there or not.
pub create-Ready :
    (allocated : Bool) (socket_path environment : Option (List ℕ)) (dials : List Dial)
    → ReadyIfAny (create allocated socket_path environment dials)
unfolding create
create-Ready allocated socket_path environment dials =
    let path = choose_path socket_path environment in
    if_cases ReadyIfAny (not allocated) _ _ (λ _. tt)
      (λ _.
        if_cases ReadyIfAny (ltb (length path) sun_path_size) _ _
          (λ _. open_monitor-Ready (fresh path dials) (fresh-Ready path dials)) (λ _. tt))
