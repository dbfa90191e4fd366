-- ===== src/Ui.antt =====
-- The GTK side of the client (src/visiontak_client/ui): chooser, web views, window.
pub mod Menu
pub mod Pool
pub mod Policy
pub mod MainLoop
pub mod Setup
pub mod Window
pub mod App
pub mod Settings
