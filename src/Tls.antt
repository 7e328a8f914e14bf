-- ===== src/Tls.antt =====
-- Packages tls and tls/reloader: certificates and trust pools from files, and their hot reload. X.509 is
-- a parameter.
pub mod Files
pub mod Reload
pub mod Loader
pub mod Reloader
