-- ===== src/Strings.antt =====
-- The strings of Sources/QuickJSC/quickjs.c, of 8-bit or 16-bit units.
pub mod Buffer
pub mod Text
pub mod Compare
