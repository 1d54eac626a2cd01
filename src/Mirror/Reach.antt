-- ===== src/Mirror/Reach.antt =====
-- What `process_xi_event` of src/lorie_evdev_bridge.c puts on the sockets.
use termux_gamepad.Bridge.State.{Bridge}
use termux_gamepad.Bridge.Input.{XiEvent, translate, seal_report}
use termux_gamepad.Mirror.Reports.{start_report}

-- The bridge when the report of an event is made and nothing is sent yet.
abbrev pub reported : XiEvent → Bridge → Bridge
reported e b =
    let r = translate e.evtype e (start_report b) in
    record b { state = r.state; world = (seal_report r).world }
