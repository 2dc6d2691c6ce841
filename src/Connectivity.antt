-- ===== src/Connectivity.antt =====
-- The connectivity page of web_console/static/js/app.js: the state of each interface, the form with
-- its checks and its submission, and the poll that follows "Save and Apply".
pub mod Status
pub mod Bytes
pub mod Cellular
pub mod Runtime
pub mod Poll
pub mod Action
pub mod Fields
pub mod Form
mod Tests
