-- ===== src/Python.antt =====
-- What the program takes from Python: dynamic values with `==`, `hash` and truth, dicts, exceptions,
-- UTF-8 and base64, and the interface of what is called but not implemented here.
pub mod Value
pub mod Dict
pub mod Error
pub mod Utf8
pub mod Base64
pub mod Host
