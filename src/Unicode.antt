-- ===== src/Unicode.antt =====
-- Sources/QuickJSC/libunicode.c, and the UTF-8 part of Sources/QuickJSC/cutils.c.
pub mod CharRange
pub mod Utf8
