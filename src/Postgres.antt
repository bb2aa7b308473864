-- ===== src/Postgres.antt =====
-- The custom resource `Postgres` and its methods (api/v1/postgres_types.go).
pub mod Model
pub mod Names
pub mod Labels
pub mod Params
pub mod Cpu
pub mod Services
pub mod Secrets
