-- ===== src/Lib.antt =====
-- A model of dexmd, the node of a sharded proof-of-stake chain with contracts, and what it does right
-- and wrong.
--
-- The program. A node keeps one chain for each shard it is interested in (blockchain/processing.go)
-- and one beacon chain with the book of validators (blockchain/validators.go). Messages come in
-- signed envelopes (networking/server.go). A broadcast changes the state (networking/broadcast.go): a
-- transaction goes into the mempool, a proposed block gets a height and is saved, signed Merkle roots
-- are stored, a Merkle proof pays on another shard, validators leave and take their stakes back. A
-- request only reads (networking/handler.go). Validators make blocks from the mempool
-- (blockchain/pool.go), blocks are validated and imported (networking/import.go), and votes on
-- checkpoints finalise them (networking/casper.go).
--
-- Where things are.
--   Base         Booleans, lists, maps as association lists, outcomes, int64 and uint64
--   Proto        the protobuf messages; External: what other packages do, as parameters, and Toy, an
--                instance for the examples; Text: strings and numbers in the formats of Go
--   Util         util/overflow.go
--   Wallet       wallet/wallet.go and wallet/signature.go; Wallet.Base58 is base58Encoding,
--                Wallet.Files the files of wallets
--   Schnorr      wallet/schnorr.go, over any curve
--   Chain        blockchain/processing.go, the state of a chain and its databases
--   Validation   ValidateTransaction and ValidateBlock, and blockchain/merkletree.go
--   Contracts    blockchain/exec.go; Contracts.Host is blockchain/api.go,
--                and Contracts.Imports is setupImport
--   Validators   blockchain/validators.go; Validators.Draw has ChooseValidator and ChooseShard
--   Pool         blockchain/pool.go
--   Import       networking/import.go, ImportBlock; Import.Loop is its outer part, and Import.Ledger an
--                abstract ledger
--   Casper       networking/casper.go; Casper.Votes is CreateVote
--   Proofs       networking/merkleproof.go
--   ForkChoice   the heights of proposed blocks in networking/broadcast.go
--   Network      networking/server.go; Network.Broadcasts is handleBroadcast, Network.Requests is
--                handleMessage, Network.Reading is read, Network.Hub is run with the connections,
--                Network.Sync is UpdateChain in networking/import.go, Network.Sending is
--                networking/transaction.go
--   Network.Rounds  ValidatorLoop in networking/server.go: the choice of a validator, the deal of the
--                shards and the own block; Network.Rounds.Signing is the joint signature and a whole
--                round, Network.Rounds.Proving the goroutine that sends Merkle proofs
-- In each of them the other modules hold theorems, and Examples holds tests and the theorems at
-- concrete values.
--
-- How it is modelled. A function of the source is a function with the same name in snake case. What
-- it changes is passed in and returned. An error is `err`, a panic (a nil pointer, an index out of
-- range, a failed type assertion) is `panic`, both of the type Outcome. A function that the source
-- calls with its error ignored is followed by a case on all outcomes. Unsigned numbers are natural
-- numbers with the wrap-around written out, and int64 is an integer that is cut back to its range. A
-- database is the function that its Get shows. A Go map is an association list. Random numbers, the
-- clock and the addresses of connections are arguments. The log is left out. A handler that reaches
-- a shard without a chain panics in the model at the lookup; the source may return an error before it
-- follows the nil pointer.
--
-- The connections of a node are a step relation: each move is what one goroutine does between two
-- accesses to the maps of the hub, and any order of the moves is a run. All other handlers are one step
-- each: a round of ValidatorLoop is not interleaved with what is handled while it sleeps.
--
-- Bounds. The backward search of IsVoteValid runs on fuel, one round for each uint64 in `vote_valid`:
-- after that it would visit the same indices again. The loop of UpdateChain runs on as much fuel as it
-- is given, since it has no bound in the source, and `Error.unfinished` says that it is still running.
-- ValidatorLoop runs for as many rounds as there are chances. All other loops are recursions on lists or
-- on the number of blocks that they visit.
--
-- What is not modelled: sockets, the command line (main.go), the pages of blockchain/statistic.go, the
-- search for peers and NAT (networking/nat.go and networking/peerserver.go) and the encryption of wallet
-- files (wallet/encrypt.go), which call other packages and keep no state of a chain; wallet/bls.go, which
-- is commented out; and the interleavings of handlers other than those of the hub.
pub mod Base
pub mod Util
pub mod Proto
pub mod External
pub mod Text
pub mod Wallet
pub mod Chain
pub mod Validation
pub mod Contracts
pub mod Validators
pub mod Pool
pub mod Import
pub mod Casper
pub mod Proofs
pub mod ForkChoice
pub mod Schnorr
pub mod Network
