-- ===== src/Bytecode.antt =====
-- The bytecode of functions: its opcodes, and the size of the stack that it needs, of
-- Sources/QuickJSC/quickjs.c.
pub mod Opcodes
pub mod Flow
pub mod StackSize
