-- ===== src/Incidents.antt =====
-- web_console/static/js/incidents.js: what every page that lists incidents shares.
pub mod Data
pub mod Escape
pub mod Paging
pub mod Panel
pub mod Drawer
pub mod Kpi
pub mod PageList
mod Tests
