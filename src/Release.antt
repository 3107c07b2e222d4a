-- ===== src/Release.antt =====
-- .github/scripts/szl_pypi_release_gate.py: the gate that builds a distribution and binds it to its
-- tag.
pub mod Names
pub mod Project
pub mod Wheel
pub mod Gate
