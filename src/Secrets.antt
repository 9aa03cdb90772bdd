-- ===== src/Secrets.antt =====
-- internal/secrets: what a ciphertext is bound to.
pub mod Binding
