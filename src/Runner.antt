-- ===== src/Runner.antt =====
-- src/ws/runner.rs: the WebSocket feed runner, a module for each of its parts: the limit on outbound
-- messages, the configuration and its events, the reconnect loop, and the supervisor around it.
pub mod Guard
pub mod Config
pub mod Feed
pub mod Session
pub mod Supervisor
mod Tests
