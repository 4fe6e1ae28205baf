-- ===== src/Hotkey.antt =====
-- app/hotkey: global hotkeys that start, stop and cancel recordings.
pub mod Binding
pub mod Conflict
pub mod Debounce
pub mod Manager
pub mod Keys
pub mod Repeats
pub mod Signals
pub mod Listening
mod Tests
