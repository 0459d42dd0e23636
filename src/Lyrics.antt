-- ===== src/Lyrics.antt =====
-- The package lyrics: the tier of a result and the race of the providers.
pub mod Tier
pub mod Cached
pub mod Race
mod Samples
