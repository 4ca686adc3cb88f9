-- ===== src/Tests.antt =====
-- The theorems at concrete inputs.
mod Doubles
mod Hub
mod Inflow
mod Limiter
mod Queue
mod Cache
mod Chain
mod Tx
mod Live
mod Mempool
mod Arrivals
mod Site
mod Lookup
mod Api
mod Sync
mod Config
mod Boot
mod Feeds
mod Ws
mod Life
