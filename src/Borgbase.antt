-- ===== src/Borgbase.antt =====
-- internal/borgbase: the types of the BorgBase API and its GraphQL client.
pub mod Types
pub mod Client
