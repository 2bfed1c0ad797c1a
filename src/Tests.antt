-- ===== src/Tests.antt =====
-- Runs at concrete data, over a store, a cache and a server that are kept in memory.
mod Fixtures
mod Pipeline
mod Rollups
mod Events
mod Streams
mod Caches
mod Settings
mod Tables
mod Database
mod Commands
mod Routes
mod Journey
