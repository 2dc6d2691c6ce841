-- ===== src/Insights.antt =====
-- The insights page in web_console/static/js/app.js: on its overview tab the cards of the configured
-- devices and the strip of key figures, with exact fractions, and the form of combined alarms.
pub mod Counts
pub mod Data
pub mod Trend
pub mod Cards
pub mod Figures
pub mod Agreement
pub mod Alarms
pub mod Events
mod Tests
