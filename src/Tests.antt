-- ===== src/Tests.antt =====
-- The theorems at concrete inputs, and concrete runs of the definitions.
mod Runs
mod State
mod Conditions
mod Services
mod Creation
mod Records
mod Etl
mod Executors
mod Dispatch
mod Authentication
mod Messages
mod Loading
mod Identities
mod Resources
