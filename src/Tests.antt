-- ===== src/Tests.antt =====
-- The theorems on concrete data, and the tests of the models, per component.
pub mod Runs
pub mod Breaker
pub mod Broker
pub mod Cron
pub mod Auth
pub mod Stream
pub mod Assistants
