-- ===== src/FilePath.antt =====
-- Go's `strings.TrimSpace` and `strings.Fields`, and `path/filepath` on Unix: `IsAbs`, `Clean`,
-- `Join` and `Base`, by their documented rules. `filepath.ToSlash` is the identity there.
pub mod Space
pub mod Fields
pub mod Split
pub mod Clean
pub mod Last
