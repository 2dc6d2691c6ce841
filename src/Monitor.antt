-- ===== src/Monitor.antt =====
-- The monitor page of web_console/static/js/app.js.
pub mod Figures
pub mod Current
pub mod Markers
mod Tests
