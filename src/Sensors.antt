-- ===== src/Sensors.antt =====
-- The sensor view of the insights page in web_console/static/js/app.js.
pub mod Issues
pub mod Series
pub mod Readings
pub mod Trends
pub mod Selection
pub mod View
mod Tests
