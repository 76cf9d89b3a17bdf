-- ===== src/Site.antt =====
-- The site around the script (site/src): the page, its build, and the server.
pub mod Styles
pub mod App
pub mod Document
pub mod Build
pub mod Server
mod Tests
