-- ===== src/Lib.antt =====
-- A verification library for the gamepad bridge: the program that serves a Termux:X11 gamepad to
-- other programs as Linux input events, and the C library that reads them.
--
-- The parts and how they meet
--   * The bridge (src/lorie_evdev_bridge.c) takes XInput2 events of one gamepad, keeps the
--     gamepad's state, and queues input events to up to sixteen clients of a Unix socket. Clients
--     ask for a descriptor, for hotplug messages, and for rumble; the bridge merges the clients'
--     effects into one that it asks the X server to play.
--   * The client library (src/termux_gamepad.c, include/termux_gamepad.h) keeps two connections to
--     the bridge, one for hotplug messages and one for events, and turns the events into a state.
--   * The preload (src/evdev_preload.c) is loaded into programs that read /dev/input: it connects
--     them to the bridge, turns force feedback effects into the bridge's commands, and input events
--     into joystick events.
--   * The stand-in for libudev (src/libudev_fake.c) tells the same programs of the devices that the
--     preload serves: it asks the bridge for the descriptor and listens for hotplug messages.
--   * The preload and this stand-in share src/tg_common.h. All speak the structures of
--     src/tg_evdev_protocol.h.
--
-- The files
--   * Prelude: Boolean tests on native numbers, lists measured by them, integers, single bits and
--     little-endian words.
--   * Wire: the structures with their encoding and decoding (Wire/RoundTrip: the laws; Wire/Text:
--     strncmp; Wire/Pieces: events off a byte stream that is cut into pieces).
--   * Bridge/State: the globals as the record Bridge, struct client as Client, and World, which
--     holds what the operating system and the X server will answer and a log of what they were
--     asked. Bridge/Os: the clock. Bridge/Convert: clamp_int, convert_axis, axis_code, button_code
--     and hat_value. Bridge/Rumble: update_rumble, send_lorie_rumble, close_client. Bridge/Queue:
--     flush_client, queue_bytes, queue_events. Bridge/Input: append_event, broadcast_events,
--     send_snapshot, process_xi_event. Bridge/Device: find_lorie_device, refresh_lorie_device,
--     broadcast_hotplug. Bridge/Control: receive_control_messages. Bridge/Server: accept_clients,
--     pump_x_events and the loop of main, one pass of it as serve_round. Bridge/Protocol:
--     query_lorie_version, with its reply of src/lorie_controller_proto.h as bytes. Bridge/Startup:
--     create_server, set_nonblocking and all of main. Bridge/Invariant and its children: what holds
--     at every pass; Bridge/Descriptors and its children: that each connection is closed;
--     Bridge/Startup/Cleanup: what main leaves behind.
--   * Gamepad/Net: connect_socket, send_all, receive_all, send_command. Gamepad/State: the
--     structures. Gamepad/Events: process_event and the loop of termux_gamepad_update.
--     Gamepad/Hotplug: the two streams. Gamepad/Api: the exported functions, a NULL handle as none.
--     Gamepad/Stream, Gamepad/Transfer, Gamepad/Plugging, Gamepad/Handle, Gamepad/Coherence and
--     Gamepad/Calls: their theorems.
--   * Common: the helpers of src/tg_common.h (tg_strlen, tg_streq, tg_copy, tg_set_bit) and its
--     names; Common/Text and Common/Bits: their laws.
--   * Preload/Fds: the table of descriptors of src/evdev_preload.c. Preload/Effects: the effects
--     that are uploaded. Preload/Calls: write and close, with the globals as the record Shim.
--     Preload/Setup: the environment variables and the DInput mode. Preload/Opening:
--     tg_connect_device, open, openat, stat. Preload/Reports: the ioctls that report.
--     Preload/Requests: ioctl. Preload/Joydev: tg_convert_joy_event and the joystick read.
--     Preload/Reading: read. Preload/Trace: sequences of calls. The children of these modules, and
--     Preload/Ownership, Preload/Writing, Preload/Isolation, Preload/Table and Preload/Axes: their
--     theorems.
--   * Udev: the globals of src/libudev_fake.c as the record Udev, and how it asks the bridge.
--     Udev/Devices, Udev/Listing and Udev/Monitor: its functions for devices, enumerations and
--     monitors. Udev/Hex, Udev/Asking, Udev/Identity and Udev/Plugging: their theorems.
--   * Mirror: both ends together, and what it means that the library shows the bridge's gamepad.
--   * Examples: concrete inputs, and each theorem applied to one.
--
-- How the code is read
--   * A function that changes globals or a handle takes the record and returns the new one; a
--     status is returned in a pair before it. Each system call takes the next of a list of answers;
--     behind the last answer it would block. Partial writes, interrupted calls, errors and hang-ups
--     are such answers, in any order.
--   * Numbers are natural numbers or integers; a word keeps its wrap-around where the code computes
--     with it (the clock's milliseconds, expiry times, casts to int16_t and int8_t). A byte buffer
--     with its fill count is the list of the bytes in use.
--   * Loops are structural recursion on the answers or on the sixteen slots. The loop over buffered
--     control messages runs on fuel 17, since the buffer of 256 bytes holds sixteen messages; the
--     loop that remaps a buffer of events runs on its number of bytes, of which each round takes
--     24.
--   * A pointer to a static object is a value that names it, and NULL is none or false; a caller's
--     buffer is a list of bytes.
--   * A double that an axis reports is taken as the integer that the cast to int makes of it.
--
-- Not modelled
--   * What lies behind Xlib and the system: the bytes of the requests for the X server (the
--     bridge's requests are kept as what they ask for), and the memory behind an ioctl that is
--     passed on.
--   * Log output; a signal is the end of the list of polls. select_device and select_hierarchy are
--     calls of the X library whose answers are inputs, and so are the queries of it that main
--     makes.
--   * Of src/evdev_preload.c: the debug output and the look-up of the C library's own functions,
--     which are taken to be there. Of src/libudev_fake.c: three functions that return a constant.
--   * src/event_server.c and the test programs, which have no logic of their own.
pub mod Prelude
pub mod Wire
pub mod Bridge
pub mod Common
pub mod Gamepad
pub mod Preload
pub mod Udev
pub mod Mirror
pub mod Examples
