-- ===== src/Api.antt =====
-- internal/api: the HTTP API of the dashboard. A request is decoded to its route by
-- http.ServeMux; a handler takes the site's state and gives the new state and the response.
pub mod Site
pub mod Admin
pub mod Read
pub mod Login
pub mod Serve
pub mod Samples
mod Tests
