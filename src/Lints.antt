-- ===== src/Lints.antt =====
-- lints.rs: the checks and changes made to a parsed configuration before it runs. A lint may change the
-- configuration, warn, and fail. The build modelled is a Linux one with every optional feature.
pub mod Options
pub mod Monad
pub mod Stacks
pub mod Stdio
pub mod Socks
pub mod Checks
pub mod Fixup
pub mod Reusers
pub mod OneReuser
pub mod Steps
pub mod Orientation
pub mod OneStdio
pub mod Sound
pub mod Proper
pub mod Quiet
pub mod Fixes
pub mod NoPanic
mod Tests
