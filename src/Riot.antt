-- ===== src/Riot.antt =====
-- internal/riot: the client of Riot's API and the parts it is made of.
pub mod Breaker
pub mod Limiter
pub mod Headers
pub mod Client
