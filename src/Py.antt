-- ===== src/Py.antt =====
-- What the SDK uses of Python's built-ins and standard library: `str` and `bytes` methods, UTF-8,
-- decimal formatting, `struct` in network order, and `binascii.crc32`.
pub mod Text
pub mod Struct
pub mod Crc
pub mod Json
pub mod Decimal
