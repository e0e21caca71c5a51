-- ===== src/Gsm.antt =====
-- internal/gsm: the radio parameters, the preset store, the SMS session window, the cell's life and
-- the configuration database.
pub mod Params
pub mod Presets
pub mod Sms
pub mod Manager
pub mod Database
