-- ===== src/Notifications.antt =====
-- The notification settings of the system page in web_console/static/js/app.js: channels, their
-- cards, and what is collected from them. The cards' HTML is left out but for the values of their
-- inputs.
pub mod Channels
pub mod Page
pub mod Kept
mod Tests
