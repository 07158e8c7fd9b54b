-- ===== src/Programs.antt =====
-- The programs in src/.
pub mod Hello
pub mod Matcher
pub mod Echo
pub mod Numbers
pub mod Routes
