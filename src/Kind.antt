-- ===== src/Kind.antt =====
-- internal/providers/kind: the provider of clusters.
pub mod Runtime
pub mod Config
pub mod Environment
pub mod Identity
pub mod Clusters
pub mod Images
pub mod Audit
pub mod Ids
