-- ===== src/ControlPlane.antt =====
-- The control plane: internal/models, internal/auth and internal/service.
pub mod Models
pub mod Jwt
pub mod Auth
pub mod Users
pub mod Traffic
pub mod Nodes
pub mod Gate
pub mod Fleet
