-- ===== src/Provisioner.antt =====
-- internal/provisioner: the rotation of a node's public address.
pub mod Address
pub mod Burned
pub mod Probe
pub mod Rotator
pub mod Ociclient
pub mod Oracle
pub mod Cloudflare
pub mod SshConfig
pub mod PostActions
