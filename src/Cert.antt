-- ===== src/Cert.antt =====
-- pkg/cert: the certificates of the webhook.
pub mod Certificate
pub mod Renewer
pub mod Certifier
