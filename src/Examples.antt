-- ===== src/Examples.antt =====
-- The programs of examples/, which use the library as its users do.
pub mod Program
pub mod PingPutGet
pub mod Barrier
pub mod Closing
pub mod Started
pub mod Running
pub mod Polling
pub mod Agreement
pub mod Passing
pub mod Finishing
pub mod Tests
