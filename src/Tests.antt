-- ===== src/Tests.antt =====
-- Concrete runs of the definitions, and the theorems at concrete inputs.
mod Instance
mod Fixtures
mod Plans
mod Runs
mod Retries
mod Probes
mod Batches
mod Configs
mod Starts
mod Documents
mod Programs
mod Providers
mod Hosts
