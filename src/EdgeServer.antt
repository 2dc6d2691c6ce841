-- ===== src/EdgeServer.antt =====
-- The Edge Server page of web_console/static/js/app.js: its endpoints and topics, its windows of
-- time and its alerts.
pub mod Settings
pub mod Items
pub mod Endpoints
pub mod Buttons
pub mod Windows
pub mod Alerts
pub mod Selection
mod Tests
