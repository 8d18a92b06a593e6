-- ===== src/Notify.antt =====
-- internal/notify: rules, the event engine and the detectors. `Rules` follows rule.go, `Engine`
-- engine.go and notifier.go, `Watched` and `Detector` detector.go; the other modules prove what they name.
pub mod Rules
pub mod Engine
pub mod Watched
pub mod Detector
pub mod Recipients
pub mod Matching
pub mod Cooldown
pub mod Disks
mod Tests
