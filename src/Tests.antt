-- ===== src/Tests.antt =====
-- The theorems at concrete inputs.
mod Tables
mod Fixtures
mod Slots
mod Booking
mod Drafts
mod Access
mod Config
mod Twilio
mod Server
mod Postgres
mod Mcp
mod Database
mod Auth
