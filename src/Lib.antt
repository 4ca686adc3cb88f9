-- ===== src/Lib.antt =====
-- btcd.watch is a block explorer for one Bitcoin node: a Go daemon that reads a btcd node over RPC and
-- serves derived figures over HTTP and a WebSocket. This library models the daemon's own logic and
-- proves what makes it correct. The parts, with the file of the repository and its module here:
--
-- internal/explorer/inflow.go (Inflow): the rolling count of accepted transactions, `inflowCounter`.
-- internal/explorer/cache.go (Cache): `lruCache`, whose `get`, `put` and `clear` keep their names.
-- internal/chain/params.go, internal/chain/scripttype.go (Chain): networks, subsidies, search texts.
-- internal/api/middleware.go (Limiter): `rateLimiter.allow` and `sweep`, `routeCost`, `clientIP`.
-- internal/api/hub.go (Hub): the event loop of `Hub.Run`, one `step` for each case of its `select`.
-- internal/explorer/queue.go (Queue): `queueFromSnapshot`, the histogram of fee bands.
-- internal/explorer/fees.go (Fees): `tierRates` with its percentiles, and `humanEta`.
-- internal/explorer/tx.go (Tx, Rpc): `deriveOutputs`, `derivePending`, `dominantCode`, `signalsRBF`.
-- internal/explorer/mempool.go (Mempool, Service): `refresh` in three steps, `Snapshot`, the peak.
-- internal/explorer/live.go (Live): `liveSnapshot` and `refreshLive`.
-- internal/explorer/arrivals.go (Arrivals): `NoteArrival` and `computeMempoolUpdate`.
-- internal/explorer/address.go (Address): `addressDelta`, `activityFor`, `addressTotals`, `Address`.
-- internal/explorer/tx.go (Service, Lookup): the state of `Service`, `avgBlockInterval`, `GetTx`.
-- internal/explorer/block.go (Block): `BlockByHeight`, `BlockByHash`, `deriveAvgFee`, `BlockFlash`.
-- internal/explorer/stats.go, fees.go (Sync, Stats): `SyncStatus`, `computeStats`, `computeFees`.
-- internal/api/handlers.go, server.go (Api): the handlers, with the sync gate and the semaphore of the
-- scans, and the routes behind the limiter.
-- internal/api/ws.go, hub.go (Ws): `trySend`, both pumps, what the pushes send, and the connections
-- beside the loop (Ws.Sessions).
-- internal/api/static.go (Static): `StaticHandler`.
-- internal/node/client.go (Node): the client of btcd with its sessions, and
-- `Backend`, what the service asks of it.
-- internal/price/price.go (Price): the quote and the loop of its refreshes.
-- internal/config/config.go (Config): `Load`.
-- cmd/btcdwatchd/main.go (Daemon): the parts together, how they come up and end, and the handlers for
-- the node's events.
--
-- How they interact: a notification of the node (Node, Daemon) marks the mempool dirty, is counted by
-- the inflow counter and wakes the hub, which pushes what the explorer derives from the mempool
-- snapshot (Snapshot) to the clients that the limiter let in. Queue, Fees and Tx read one snapshot. A
-- request passes the sync gate of Api, is classified by Chain, and is answered by a call of the service
-- (Lookup, Block, Address) as an `Action` of Base: state passing with errors as values, in which what
-- was cached before an error stays cached. A call is served alone; where calls run beside each other
-- and it matters (Hub, Live, Sync, Mempool, the semaphore of Api), their steps interleave in a
-- list, or as a step relation over all that takes part (Ws.Sessions, Mempool.Versions, Daemon.Life).
--
-- A time is a number of nanoseconds since the epoch of the clock, and each call under a mutex is one
-- step. A Go map is an association list or a list of keys, in any order of iteration. Numbers that
-- the source keeps in 64 bits and that cannot reach the bound (sizes, counts, amounts) are unbounded.
-- Doubles, `sort.Slice`, btcd's address package and `btcutil.NewAmount` are parameters: Float with
-- the laws of the order of the doubles that are not NaN (IsOrder), Sorter with the documented
-- behaviour of a sort, and functions. No loop needs fuel: each follows a list or a count of rounds.
-- The tokens of the limiter are exact fractions here, so the rounding of doubles is left out there: a
-- request whose cost is met to the last fraction can be refused by the program and granted here, and
-- what is shown of the limiter holds of the program up to such errors.
--
-- Not modelled: HTTP, JSON, the sockets and the connection to the node, which are I/O; the matching of
-- routes (net/http); the wait for a scan slot, of ten seconds at most, whose order is the Go runtime's
-- (a request that finds none is refused here); the listener, the flags and the signals
-- (cmd/btcdwatchd/main.go); and the frontend under web.
pub mod Base
pub mod Snapshot
pub mod Rpc
pub mod Inflow
pub mod Cache
pub mod Chain
pub mod Limiter
pub mod Hub
pub mod Queue
pub mod Fees
pub mod Tx
pub mod Mempool
pub mod Live
pub mod Arrivals
pub mod Address
pub mod Node
pub mod Price
pub mod Service
pub mod Lookup
pub mod Block
pub mod Sync
pub mod Static
pub mod Stats
pub mod Api
pub mod Config
pub mod Ws
pub mod Daemon
pub mod Tests
