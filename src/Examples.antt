-- ===== src/Examples.antt =====
-- Inputs, an exact decimal and a database in memory, at which the theorems are applied.
mod Rows
mod Memory
mod Outcomes
mod OrderWrites
mod CustomerWrites
mod MemoryLaws
mod Data
mod Searches
mod SearchWitnesses
mod LikeWitness
mod NotificationWitnesses
mod OverlapWitnesses
mod Deployed
mod PipelineWitnesses
mod ConcurrencyWitnesses
mod Witnesses
