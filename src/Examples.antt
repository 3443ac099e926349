-- ===== src/Examples.antt =====
-- Concrete runs: each headline theorem at an input that its hypotheses allow.
mod Workloads
mod Conditions
mod Sessions
mod StatusRules
mod Caches
mod Paths
mod Writes
mod Diagnostics
mod Debouncers
mod Configurations
mod Intents
mod Publications
mod Collections
mod Adoptions
