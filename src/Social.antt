-- ===== src/Social.antt =====
-- The social features: the server's side of Tapestry (lib/api/tapestry-shared.ts). What the service
-- answers is a parameter.
pub mod Cache
pub mod Profiles
