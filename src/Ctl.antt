-- ===== src/Ctl.antt =====
-- system/alpenglow-ctl, the control programs in Zig. Texts are lists of bytes.
pub mod Kernel
