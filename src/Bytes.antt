-- ===== src/Bytes.antt =====
-- Byte buffers and what the engine writes into them: the dynamic buffers and the strings of
-- Sources/QuickJSC/cutils.c, and the LEB128 numbers and the line table of
-- Sources/QuickJSC/quickjs.c.
pub mod DynBuf
pub mod Leb128
pub mod LineTable
pub mod CString
