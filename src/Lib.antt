-- ===== src/Lib.antt =====
-- A verification library of the game backend: the services of internal/ with the packages of pkg/.
--
-- A player's requests reach the lobby (internal/lobby) through the gateway that the player's session
-- names (pkg/session), and there the actor of the player's shard (pkg/shard/actor.go), which queues
-- them while the player is loaded or a commit is under way. The lobby computes a result on copies of the player's state - a spin of a slot machine (internal/slots), a draw of gacha,
-- a change of the bag or the wallet - under the limits of responsible gaming (pkg/rg), with a seeded
-- random source (pkg/rng) and identifiers from the process's generator (pkg/idgen, pkg/ident), and
-- then commits balance, ledger and idempotence key in one Redis script that checks the epoch of the
-- shard (pkg/store/fencing.go); other changes are marked and flushed later (pkg/store/dirty.go). What
-- players send to each other goes by a pending record that is delivered once (pkg/xtx). Bets feed progressive pools (pkg/jackpot). Accounts log in through
-- third-party channels behind circuit breakers (pkg/idp).
--
-- The files, each with the code that it models:
--   - Prelude and its children: Boolean tests, lists and words over the native numbers, Go's int64
--     arithmetic as exact integers with the wrap-around written out, and results with errors.
--   - Ident: New of pkg/ident/ident.go. Ident/Worker has its theorem.
--   - Idgen: Next, NextN and Parse of pkg/idgen/snowflake.go; catch_up and wait_next_milli are the two
--     waiting loops, settle and number the two halves of Next. Idgen/Layout is the bit layout,
--     Idgen/Order one call, Idgen/Supply a sequence of calls. The clock is the list of the readings that
--     the calls take, so a wait is a recursion on that list, and `none` is a call that still waits.
--   - Rng: Chance, IntN, Int64N and WeightedPick of pkg/rng/rng.go; Rng/Seed is Hex and ParseSeed,
--     Rng/Pick the theorem on weights. The generator ChaCha8 is a parameter (Stream), of which only
--     the bound of a draw is used.
--   - Slots: Spin, its evaluation and Replay of internal/slots/engine.go, with SlotMachine of
--     pkg/gameconf/gameconf.go. A panic of Go is an error of the model, and a map is a list in its order
--     of iteration. Slots/Lines, Payout, Reports and Orders have the theorems, the last three on spins in
--     different orders.
--   - Rg: pkg/rg/rg.go, with Rg/Day and Rg/Limits.
--   - Lobby/Bag: the wallet and the bag of internal/lobby/player.go. Lobby/Bag/Held counts what is
--     held, Lobby/Bag/Ops states the operations against that count.
--   - Lobby/Gacha: internal/lobby/gacha.go, with Lobby/Gacha/Pity for one draw.
--   - Lobby/Spin: handleSpin of internal/lobby/slots.go up to its commit, on copies of the player, and
--     fastForward. Lobby/Spin/Guards is on the checks, Lobby/Spin/Trace and Lobby/Spin/Aligned on
--     the random stream of a round and its replay for one order of the paytable, Lobby/Spin/Orders for
--     several, Lobby/Spin/Money on the balance and the ledger.
--   - Lobby/Payout: handleApplyJackpot of internal/lobby/slots.go up to its commit, and
--     handleRoundState. Lobby/Payout/Credit has the theorem.
--   - Lobby/Shard: internal/lobby/shard.go for one player, whose entries in the shard's maps are a Seat:
--     acquire, enqueue, startLoad, onLoaded, drainWaiters, failWaiters, the completion of commit,
--     unloadIdle and Close, and the events that call them. Handlers is the interface to the handlers.
--     Lobby/Shard/Log and Fifo are on the order of the requests, Shape and Steps on the shapes of a
--     seat, Reached and Served on what follows from them.
--   - Lobby/Transfer: handleTransfer, handleApplyTransfer and claimAsync of internal/lobby/handlers.go
--     with Transfers for the writes; the mails of fallbackToMailbox are not modelled.
--     Lobby/Transfer/Items is on their loops, Conserved on whole transfers.
--   - Lobby/Battle: handleBattleSettle of internal/lobby/handlers.go up to its commit, with ExpToLevel of
--     pkg/gameconf/gameconf.go. A round for each point is enough for the loop over the levels when every
--     level costs something; without rounds left it gives `none`. Lobby/Battle/Levels has the theorem.
--   - Transfers: pkg/xtx/xtx.go over Redis and its sorted sets (Index, IsIndex). Transfers/Claims is on the
--     deliveries to a receiver, Transfers/Pending on the sender's record.
--   - Actor: pkg/shard/actor.go as a step relation of the goroutine and those around it, with Actor/Order
--     and Actor/Stuck.
--   - Dirty: pkg/store/dirty.go; Dirty/Flush: flushLevel, buildBatch, unloadIdle, FlushAllSync and
--     OnFlushResult of internal/lobby/shard.go and the verdict of pkg/store/flush.go. Dirty/Covers and
--     Dirty/Taken are on the marks, Dirty/Flush/Lossless on a flush and its result.
--   - Room: internal/room/room.go; Room/Shard: internal/room/handlers.go and shard.go for one room, whose
--     entries in the shard's maps and in Redis are an Entry. Room/Members, Kept and Once are on what the
--     events keep, Room/Result on the winners.
--   - Match: internal/match/match.go, the pool of a mode and tier; match_rounds is the loop of tryMatch,
--     on as many rounds as players wait. Match/Pool has the theorems.
--   - Session: pkg/session/session.go over an interface of Redis' hashes (Hashes, IsHashes), with
--     Session/Late.
--   - Fencing: the scripts and calls of pkg/store/fencing.go over an interface of Redis (Redis, with the
--     laws IsRedis). Fencing/Laws is on runs of commands, Fencing/Epochs on any sequence of calls by any
--     nodes, Fencing/Commits on first and repeated commits.
--   - Jackpot: pkg/jackpot/jackpot.go over an interface of the pool's keys (Cells, IsCells), with
--     Jackpot/Money. A claim takes as an argument what other processes do between its two steps.
--   - Breaker: pkg/idp/breaker.go and Verify of pkg/idp/idp.go; the answer of a channel is a parameter.
--     Breaker/Circuit is on interleavings of operations, Breaker/Logins on sequences of logins.
-- Each Examples module runs the definitions and applies the theorems at concrete values.
--
-- State is passed explicitly, a mutex makes a call one step, and a loop is a recursion on the list
-- that it walks or on the number of rounds that are left; only the levels of a battle's reward can run
-- out of rounds, as said there.
-- Integers of 64 and 32 bits wrap as in Go; where a theorem needs that nothing wraps it says so.
--
-- Not modelled: network failures other than those that an argument stands for, logs and metrics, JSON
-- and protocol buffers (values stand for themselves), the transport and wiring of the services, and
-- the parts of the services that the files above do not name: the other handlers of the lobby,
-- the world boss, the gateway, shard claims and leadership, payments and accounts.
pub mod Prelude
pub mod Ident
pub mod Idgen
pub mod Rng
pub mod Slots
pub mod Rg
pub mod Lobby
pub mod Fencing
pub mod Dirty
pub mod Actor
pub mod Session
pub mod Match
pub mod Room
pub mod Transfers
pub mod Jackpot
pub mod Breaker
