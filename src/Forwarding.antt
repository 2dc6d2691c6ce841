-- ===== src/Forwarding.antt =====
-- The data-forwarding page of web_console/static/js/app.js: certificate widgets, the toggles of the
-- profile form, and the list of profiles with its saves.
pub mod Status
pub mod Cert
pub mod Toggles
pub mod Profile
pub mod Form
pub mod Store
pub mod Audit
pub mod Buffer
pub mod StatusCard
mod Tests
