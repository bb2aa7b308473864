-- ===== src/Tests.antt =====
-- Runs of the model on concrete data, and the theorems at concrete inputs.
mod Data
mod Names
mod Specs
mod Services
mod Balancing
mod Patroni
mod Credentials
mod Webhook
mod Status
mod Operator
mod Policies
mod Deletion
