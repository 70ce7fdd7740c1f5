-- ===== src/Config.antt =====
-- internal/config: the manifest, and the secret names that its JSON columns mention.
pub mod Json
pub mod SecretRefs
pub mod Manifest
pub mod Skill
pub mod Include
pub mod Resolver
