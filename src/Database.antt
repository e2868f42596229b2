-- ===== src/Database.antt =====
-- internal/database: the schema and its migrations.
pub mod Migrate
pub mod Connect
