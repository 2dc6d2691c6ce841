-- ===== src/Interfaces.antt =====
-- The interfaces page in web_console/static/js/app.js.
pub mod Registers
pub mod ModbusTcp
pub mod Save
pub mod Values
pub mod Rs232
pub mod Rs485
mod Tests
