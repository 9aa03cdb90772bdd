-- ===== src/Authz.antt =====
-- internal/authz: the permission catalogue, permission sets, folders, grants and policies.
pub mod Catalogue
pub mod Set
pub mod Folder
pub mod Grants
pub mod Policy
