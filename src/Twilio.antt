-- ===== src/Twilio.antt =====
-- internal/integration/twilio: the inbound webhook's form, its signature and its message.
pub mod Form
pub mod Inbound
pub mod Signature
