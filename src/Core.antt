-- ===== src/Core.antt =====
-- src/core: the data model, the generic component, the service and the HTTP handler.
pub mod Types
pub mod Component
pub mod Interface
pub mod Publisher
pub mod Member
pub mod Service
pub mod Encoding
pub mod Handler
pub mod Probe
