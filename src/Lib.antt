-- ===== src/Lib.antt =====
-- grokbuild-pool: the account pool behind the gateway, as far as its own logic goes.
--
-- A request authenticates with a client token (internal/clients), which has a quota and a gate on
-- concurrency and rate. The lease manager (internal/lease) then asks the selector
-- (internal/selector) for an account; the selector chooses among the accounts that the hot index
-- (internal/hot) holds in memory, by a sticky binding, a round robin or a scored sample. The manager
-- checks the account's row in the catalog (internal/catalog), finds it an egress from the proxy pool
-- (internal/proxypool) where it has none, and takes an in-flight slot in the hot index. When the
-- call ends, the release gives the slot back, writes the row's health, may cool down or quarantine
-- the account or one model of it, and clears sticky bindings. The tokens of a row that expires soon
-- are renewed by internal/refresh and stored against the row's revision.
--
-- Base: numbers, integers, results, lists and maps. A Go map is an association list.
-- Hot: internal/hot/index.go. Hot/Index has a record for the state (`hot`, `ids`, `pos_of` for pos,
--   `limit` for cap) and a function for each method (AddInflight is `add_inflight`, and so on);
--   Hot/Load has LoadEligible in the three parts between which it holds no lock, Hot/Sample has
--   SampleEligible, Hot/Meta the filters and the choice of a victim. A method holds the lock for its
--   whole body and is one step. Hot/Valid, Dense, Replace, Preserve and Run prove the invariant;
--   Inflight, Carry and Counts follow the live counts; Pages, Picked and Complete are about loading
--   and sampling.
-- Selector: Selector/Sticky and Acct are sticky.go, the LRU of bindings with its index by account;
--   Selector/Config and Pick are config.go and selector.go. StickyInv, StickyOps, StickyRun,
--   StickyCalls and StickyLaws are about the bindings, Order, RoundRobin, Rotation, Picks and
--   Affinity about picking; Reorder and Alike show that the order of the map does not matter to the
--   round robin.
-- Lease: Lease/Catalog has the account rows with Get, PatchHealth and SetProxy of
--   internal/catalog/catalog.go; Lease/Config, Cooldown, Manager and Release are internal/lease.
--   Acquired, Released and Backoff prove what a lease, a release and a cooldown promise.
-- Cluster: internal/clusterstate/memory.go. Cluster/Memory has every method, Shards and Refresh what
--   a worker and a refresher may rely on.
-- Anthropic: internal/protocol/anthropic/stream.go and thinking_stream.go. Anthropic/Exec is the shape
--   of a method that may fail, Stream the translator and its blocks, Process what each event does;
--   Frames is what a client may rely on in the order of the events. Tracks, Live, Blocks, Writes,
--   Closing, Ending, Cases and Follow carry that through every method.
-- Clients: internal/clients. Clients/Token and Store are the table, Quota its quota statements, Gate
--   the limits in memory, Cost the price of a request; Access is about authentication.
-- Proxy: internal/proxypool/pool.go.
-- Catalog: the rest of internal/catalog/catalog.go. Catalog/Rows has the writes, Listing the two
--   queries by which the hot index and the refresher read; Writes and Cas are about the revision
--   check among other writes, Imports about an import, Sorted, Cuts and Pages about the pages,
--   and Batches and Loaded about the hot set that is loaded from them.
-- Refresh: internal/refresh. Refresh/Config, Policy, Service and Adapter are config.go, policy.go,
--   service.go and executor_adapter.go; what others write to the catalog while a call waits or may
--   be overtaken is a list of writes at each such point (Others). Keyed, Holds, Held and Fresh follow
--   the tokens through a call, Adapted through the adapter, and Streak follows a streak of failures.
--   The adapter's patch of the hot meta, a Get and a Promote, is one step here.
--
-- Each loop is structural recursion but two: the shrinking of Resize, whose fuel is the length of the
-- list that every round shortens, and the paging of LoadEligible, whose fuel is the room left, since
-- every round that goes on loads one account or more. Acquire makes at most the configured number of
-- attempts.
--
-- The clock, the random draws, the proxy callback, hashes and URL tests are arguments; the page of
-- a reload is one too, which Catalog/Loaded gives as ListEligible. A float64 is any type with the
-- operations that the scores use. An int is an unbounded integer but where the code may reach its
-- bounds: the int32 count in flight, the shift and the product in a cooldown, the sum of two token
-- counts and the cursor of the round robin wrap around.
-- A write of the stream fails or not by what has been written before it, and JSON is decoded.
-- The rate limiter grants or not, singleflight answers with another call's result or lets the call
-- lead, and the OAuth provider is a function of the refresh token.
-- Not modelled: SQL errors, files, HTTP, the Redis backend, the console, and the parts of the
-- services that only wire these together.
pub mod Base
pub mod Anthropic
pub mod Hot
pub mod Cluster
pub mod Selector
pub mod Catalog
pub mod Clients
pub mod Lease
pub mod Proxy
pub mod Refresh
