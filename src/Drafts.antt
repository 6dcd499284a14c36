-- ===== src/Drafts.antt =====
-- internal/application/drafts: appointment drafts and their confirmation.
pub mod Types
pub mod Parse
pub mod View
pub mod Service
