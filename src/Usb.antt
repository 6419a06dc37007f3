-- ===== src/Usb.antt =====
-- crates/reink-usb/src: the choices that the USB transport makes.
pub mod Descriptor
pub mod Selection
pub mod Unique
pub mod Native
pub mod Redaction
pub mod HardwareId
pub mod Handoff
pub mod Exchange
pub mod HandsBack
mod Tests
