-- ===== src/Cec.antt =====
-- The CEC side of the client (src/visiontak_client/cec).
pub mod Keymap
pub mod Uapi
pub mod Kernel
pub mod Choice
pub mod Base
pub mod Libcec
pub mod Reader
