-- ===== src/Session.antt =====
-- app/session: the life of dictation sessions. State has the data, the modules after it the methods
-- of `SessionManager`, and the last ones what holds of them.
pub mod Policy
pub mod State
pub mod Recordings
pub mod Cancel
pub mod Worker
pub mod Stop
pub mod Requests
pub mod Hotkeys
pub mod Invariant
pub mod CancelKeeps
pub mod StepKeeps
pub mod CancelKept
pub mod Reachable
pub mod Races
pub mod Queue
mod Tests
