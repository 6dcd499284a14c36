-- ===== src/Config.antt =====
-- internal/config/config.go: the settings read from the environment.
pub mod Reads
pub mod Texts
pub mod Origins
pub mod Load
pub mod Laws
