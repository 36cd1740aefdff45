-- ===== src/Python.antt =====
-- What the program uses of Python's standard library on texts and bytes: UTF-8, base64, decimal
-- numbers, `str.strip` and `datetime.isoformat`. It behaves as CPython 3.12 does.
pub mod Utf8
pub mod Base64
pub mod Decimal
pub mod Iso
