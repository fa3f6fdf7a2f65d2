-- ===== src/Privacy.antt =====
-- src/privacy: the file of a data export, and the pages of rows that are written into it.
pub mod Writer
pub mod Pages
pub mod Export
