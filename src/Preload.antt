-- ===== src/Preload.antt =====
-- src/evdev_preload.c: the library that stands in for /dev/input in programs it is loaded into.
pub mod Fds
pub mod Effects
pub mod Calls
pub mod Setup
pub mod Opening
pub mod Reports
pub mod Joydev
pub mod Requests
pub mod Reading
pub mod Trace
pub mod Writing
pub mod Ownership
pub mod Isolation
pub mod Table
pub mod Axes
