-- ===== src/Database.antt =====
-- internal/db/migrator.go and internal/store/pg.go: the migrations, and the store of events and telemetry with the texts of its queries.
pub mod Migrations
pub mod Queries
pub mod Store
