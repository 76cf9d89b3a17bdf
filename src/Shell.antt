-- ===== src/Shell.antt =====
-- site/src/shell.js, the script of the page: it mounts a terminal, starts the emulator and passes
-- bytes between the two. Each function of the script is a function on the state; `Boot` composes
-- them as the module body does, and `Events` says which of them runs next.
pub mod State
pub mod Release
pub mod BuildId
pub mod Status
pub mod Metrics
pub mod Screen
pub mod Keyboard
pub mod Boot
pub mod Events
pub mod Legacy
pub mod Invariant
pub mod Serial
pub mod Emulator
pub mod Failure
pub mod Independence
pub mod Success
pub mod Once
pub mod Ready
mod Samples
mod Tests
mod PartTests
pub mod Progress
