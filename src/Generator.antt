-- ===== src/Generator.antt =====
-- The template functions and the type table of internal/generator.
pub mod Literals
pub mod Types
pub mod FuncMap
pub mod Runs
