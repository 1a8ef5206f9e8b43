-- ===== src/Lib.antt =====
-- Ultima: a Redis-compatible in-memory store. This library models its shard engine and its command
-- engine, and proves what they promise.
--
-- The program. A front end (RESP, WebSocket, HTTP, gRPC) hands a command line to Engine.Execute
-- (lib/commands/engine.go), which passes its gates, queues the command inside MULTI or calls its handler.
-- A handler parses its arguments and runs closures on the shards that own its keys
-- (lib/shard/shard.go): each shard is a goroutine with its part of every logical DB's table, an expiry
-- heap, the tombstones and epochs of WATCH and the memory counters. A handler then notifies keyspace
-- events and returns a reply value (lib/resp/value.go).
--
-- The files:
--   Base, Base/Int, Base/Lists, Base/Maps, Base/Tests: names and lemmas that all share; int64 as
--     integers with the wrap-around written out; a Go map keyed by strings.
--   Numbers: parseIntStrict, parseCursor and lowerASCII of lib/commands/engine.go, uintToStr of
--     lib/commands/keys.go, ParseInt64 of lib/types/types.go. RoundTrip, Range, Overflow: their proofs.
--   Platform: Type, Entry, expItem of lib/shard/shard.go, and as an interface with laws the code that is
--     not in the repository: the table (sharded_hash_ts), the heap (heap_ts), the checksum, and a
--     collection as far as a shard looks at it. Samples/Model fills it.
--   Resp: Value of lib/resp/value.go.
--   Shard: the state of a shard and its helpers (Lookup, Store, Delete, Touch, tombstone, flushDB,
--     WatchVersion, WatchDirty, the waiter registry, PushExpire, sweep, nextSweepInterval). Shard/Step:
--     histories as a step relation. Shard/Table, Shard/Lookup: cases and table lemmas. Shard/View: what
--     a client can see of a key. Shard/Memory: the accounts. Shard/Sweep: sweep. Shard/Watch and
--     its children: WATCH.
--   Commands: the engine as shards, routing (ShardIndex), do and doMulti. Commands/Outcome: what a
--     closure promises on one shard; Commands/Lift: the same for the engine.
--   Commands/Set, Strings, Counters, Expire, Multi: the handlers of lib/commands/strings.go and
--     lib/commands/keys.go, each with an Effect child that specifies it on the visible content of its key.
--     Commands/Handlers: the single-key handlers against those specifications, for the whole engine.
--   Commands/Tx: ConnState, MULTI, EXEC, DISCARD, WATCH (lib/commands/tx.go); Tx/Execute: Execute.
--   Glob: GlobMatch of lib/commands/glob.go; Glob/Sound says what a pattern means.
--   Types: Hash and Set of lib/types (hash.go, set.go, and their part of memusage.go). Types/Hash/Pairs,
--     Renumber, Encoding: the slice of pairs, its index and the well-formedness; Refines, Order: what the
--     calls promise. Types/Set/Find: the binary search; Members: the list; Ints, Encoding, Promote,
--     Forms, Adding, Removing: the two encodings; Refines: what the calls promise. Types/Slices: lemmas
--     on slices.
--   PubSub: the broker of lib/pubsub/broker.go. Registry, WellFormed: one registry; Messages: whom
--     Publish addresses; Clients, Promises: sequences of calls.
--   Commands/Collections: getColl and storeColl of lib/commands/coll.go, and objects that hold a hash or a
--     set as interfaces; Samples/Model fills them. Collections/Outcomes: what their commands share.
--     Commands/Hash: the handlers of lib/commands/hash.go over Types/Hash. Effect: what each does to the
--     visible content of its key; Total: the loops over fields; Handled, Safe, Refused, Charge: the
--     handlers on the whole engine, their error paths, their memory.
--   Commands/SetAlgebra: setSnapshot, intersect, unionAll and diffAll of lib/commands/set.go; Built, Texts,
--     Intersection: which texts they return. Commands/Sets: the handlers of that file over Types/Set, with
--     Total, Effect and Handled as for the hashes; Combined: the algebra on the whole engine.
--   Commands/Notify: lib/commands/notify.go; Notify/Canonical: the flags printed and read.
--   Samples: containers, a small engine, and the results below at concrete inputs.
--
-- A handler `cmdX` is `cmd_x`. It takes the DB of the connection and its arguments behind the name; the
-- command table checks their number first. Its closure is `x_task`, and what follows the lookup in the
-- closure `x_found`. A hash is changed in place behind its entry, which the model writes out as a new
-- object in the same entry, and an index out of range is `none`. Time stands still within a command. DB
-- numbers are natural numbers, and a map or slice over them is a function. A byte is a number; texts of
-- the program are ASCII.
--
-- Bounds. int64 and uint64 wrap as in Go. The digit loop of uintToStr runs on the room of its 20-byte
-- buffer, which is enough for uint64. sweep runs on the rounds that its limit leaves, or on the heap's
-- length, since every round pops one item. GlobMatch runs on the length of the pattern, which every
-- round shortens. The search of an integer set runs on the length of its slice plus one. WATCH is
-- proved for histories in which no counter can have reached 2^64.
--
-- Not modelled: the goroutines themselves (a shard runs one closure at a time, so a history is a
-- sequence of steps; EXEC holds every shard, so it is one step), eviction (maxmemory is 0, and the gate
-- of Execute takes its outcome as a parameter), floating point (INCRBYFLOAT, HINCRBYFLOAT), HRANDFIELD and
-- HSCAN, SPOP, SRANDMEMBER, SMOVE, SINTERCARD and SSCAN, lists and sorted sets, SCAN and KEYS,
-- scripting, persistence, the front ends, and statistics.
pub mod Base
pub mod Numbers
pub mod Platform
pub mod Resp
pub mod Glob
pub mod Commands
pub mod Types
pub mod PubSub
pub mod Shard
pub mod Samples
