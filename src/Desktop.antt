-- ===== src/Desktop.antt =====
-- The package desktop: key files, MIME associations, and the applications for a MIME type.
pub mod Groups
pub mod Associations
pub mod Chain
pub mod Cache
pub mod Choice
pub mod Render
pub mod Search
pub mod Written
