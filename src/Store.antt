-- ===== src/Store.antt =====
-- internal/store: the state that the server keeps.
pub mod Jobs
pub mod Numbered
pub mod Named
pub mod Path
pub mod Policies
pub mod Commands
pub mod Clusters
pub mod Sql
pub mod Secrets
pub mod Groups
pub mod Identity
pub mod Mlflow
