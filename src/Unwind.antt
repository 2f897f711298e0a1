-- ===== src/Unwind.antt =====
-- src/unwind_libunwind.c: the callbacks that libunwind calls, and the walk over the stack.
pub mod Registers
pub mod Encoding
pub mod Memory
pub mod Frames
pub mod Table
pub mod Access
mod Callbacks
mod Tests
