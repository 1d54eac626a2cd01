-- ===== src/Bridge.antt =====
-- src/lorie_evdev_bridge.c: one XInput2 gamepad, served to any number of local clients.
pub mod State
pub mod Os
pub mod Convert
pub mod Rumble
pub mod Queue
pub mod Input
pub mod Device
pub mod Control
pub mod Server
pub mod Protocol
pub mod Startup
pub mod Descriptors
pub mod Invariant
