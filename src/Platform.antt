-- ===== src/Platform.antt =====
-- internal/platform: masking and rate limiting.
pub mod Pii
pub mod Ratelimit
pub mod Logging
