-- ===== src/Text.antt =====
-- What the controller uses of Python's `re`, `fnmatch`, `pathlib` and Unicode tables.
pub mod Regex
pub mod Patterns
pub mod Glob
pub mod Platform
