-- ===== src/Scan.antt =====
-- .github/scripts/forbidden_domain_scan.py: the gate that looks for a prohibited host in tracked
-- files, and judges each occurrence by the text around it.
pub mod Marks
pub mod Family
pub mod Bounds
pub mod Tokens
pub mod Lexer
pub mod Source
pub mod Guard
pub mod Shapes
pub mod Prose
pub mod Judge
pub mod Index
pub mod Ripgrep
pub mod Gate
