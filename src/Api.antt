-- ===== src/Api.antt =====
-- The handlers of `FeatureServer` in server/freebsd_ref/main.cpp for one feature of one session.
-- `Api/Json` writes the answers, `Api/Start` is `StartFeature`, and `Api/Report` is
-- `CompleteFeature` and `UnsupportedFeature`. A handler takes the readings of the clock that it
-- makes, and runs as if no other thread touched its slot meanwhile.
pub mod Json
pub mod Start
pub mod Report
pub mod Steps
pub mod Verdicts
pub mod Targets
pub mod Races
pub mod Schedules
pub mod Blocks
pub mod Alone
pub mod Concurrent
pub mod Together
pub mod Begin
