-- ===== src/Tests.antt =====
-- Runs of the model at concrete inputs, and the theorems applied to them.
mod Samples
mod Scheduling
mod JobsStore
mod Stores
mod SecretsStore
mod GroupsStore
mod SmallParts
mod QueryHandlers
mod Mlflow
mod Paths
mod Policies
