-- ===== src/Gamepad.antt =====
-- src/termux_gamepad.c and include/termux_gamepad.h: the client library over the bridge's socket.
pub mod Handle
pub mod Net
pub mod State
pub mod Events
pub mod Hotplug
pub mod Plugging
pub mod Api
pub mod Stream
pub mod Transfer
pub mod Coherence
pub mod Calls
