-- ===== src/Web.antt =====
-- src/web/web_validate.h: the checks of requests, cookies, paths and frames. A null pointer is `none`.
pub mod Paths
pub mod Frames
pub mod Access
pub mod Auth
pub mod Sockets
