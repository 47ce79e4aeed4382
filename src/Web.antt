-- ===== src/Web.antt =====
-- The package web and the HTTP API.
pub mod Api
pub mod Proxy
pub mod Handlers
pub mod Reply
pub mod Handler
pub mod Hash
pub mod Times
