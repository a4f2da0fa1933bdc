-- ===== src/Ui.antt =====
-- govisor/ui: the panels of the terminal client. What is drawn is a parameter or left out; what the
-- panels keep, show and do is here.
pub mod Bar
pub mod Keys
pub mod Keeps
pub mod Logs
pub mod Shown
pub mod Reach
pub mod Offered
mod Tests
pub mod Events
pub mod Main
pub mod Auth
pub mod Info
pub mod LogView
pub mod Help
pub mod App
pub mod Loop
