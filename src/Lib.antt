-- ===== src/Lib.antt =====
-- Bademeister: a recorder of the history of a Bitcoin node's mempool.
--
-- Parts. The daemon (src/daemon) receives transactions and blocks from a node, at its start over
-- RPC (src/bitcoinrpcclient) and then over ZMQ (src/zmqsubscriber), and writes them to an SQLite
-- database through src/storage. The table "block" is a tree of blocks, "transaction" has one row
-- for a txid, and "transaction_block" says which stored transactions a block confirms. The column
-- last_removed holds the time of the block by which the consensus chain removed a transaction
-- from the mempool, so that a new best block on another branch reassigns it. mempool.go rebuilds
-- the mempool at a past time from these tables. src/types has the shared records. The program
-- cmd/daemon/main.go makes these parts and runs the daemon.
--
-- Files. A file stands for one part of the source, its children hold the proofs about it.
--   Common        numbers, Boolean tests, options and lists, with the lemmas on them
--   Types         src/types: Instant (time.Time), Hash (hash.go; Hex for its text), Height
--                 (parseHeight of block.go), and the records of block.go and transaction.go
--   Errors        errors as values, and the result of a method: a value, an error, a panic, or
--                 the fuel of the model used up
--   Wire          NewBlockFromWireBlock and NewBlockFromBytes of src/types/block.go
--   Storage       Database (storage.go: tables, statements, formatQuery), Setup (storage.go:
--                 NewStorage and the file of the database), Transactions (storage_transaction.go),
--                 and of storage_block.go Blocks (queries), Chain (CommonAncestor, WalkBlocks,
--                 ReorgBase) and Insert (InsertBlock, its parts; Whole puts them together, and
--                 Preserved and its children are what every statement keeps, failed or not)
--   Mempool       mempool.go: Buffers (NextTransaction, NextBlock), Events (events, Seek) and
--                 Create (the constructors, Clone, TransactionMap, Transactions)
--   Zmq           src/zmqsubscriber: parseTransaction, parseBlock and processMessage; Subscription
--                 has NewZMQSubscriber, and Run with its goroutines as steps
--   Rpc           src/bitcoinrpcclient: RawMempoolToTransactions of rpcmempool.go, with its fees as
--                 float64, and Client for
--                 bitcoinrpcclient.go and GetRawMempoolVerbose
--   Daemon        src/daemon/daemon.go: findMissingBlocks, InitBlocksRPC, InitMempoolRPC, the start
--                 of Run and its loop as steps; Service has NewBademeisterDaemon, Run as a whole
--                 and Close, and Quit the channel by which Stop ends the loops
--   Program       cmd/daemon/main.go: what main makes, and its exit codes
--   Tests         the chain with a reorg of src/storage/storage_test.go, and the instances at
--                 which the theorems are applied
-- A Go method becomes the function of its name in snake case: InsertBlock is insert_block, and
-- insertBlock, which it calls, is insert_block_row. A method of Storage maps a database to a
-- result and a database, a method of Mempool does so on the mempool and the database. What was
-- written before an error stays written, as in the code, which uses no transaction of SQL.
--
-- The database. Rows are lists, and SQL text is read as what it states: a filter, a stable sort
-- and a limit, or an update of rows. The driver is a parameter of every database: it says which
-- of the coming statements fail, and in which order an unsorted scan visits the rows; theorems
-- that need it assume a driver that fails no statement and visits every row once. Row ids are one
-- more than the largest, and no row is ever deleted. last_rowid is sqlite3_last_insert_rowid.
-- Errors in the type of a stored column are left out.
--
-- Numbers. Heights are uint32, with the wrap-around written out; ids, times and fees are natural
-- numbers below their limits. A fee that the node gives as a float64 is a mantissa over a power of two,
-- and its product with 1e8 is rounded as the processor does. A time is a second and a nanosecond after
-- 1970, without a location: Go's == looks at the location as well, which differs from that of the
-- stored times for the time.Unix(0, 0) of a mempool without transactions alone, so that a row with
-- first_seen 0 is taken not to be there.
--
-- Fuel. The source recurses and loops without a bound. CommonAncestor gets the sum of the two
-- heights, the number of pairs of stored blocks and one: on chains the heights are enough, and on
-- other tables a pair of blocks that comes again means that the recursion has no end. WalkBlocks gets
-- the height of its start and the number of stored blocks and one, for the same reason. Where the
-- fuel of CommonAncestor is used up, the source recurses until its stack overflows, which ends the
-- program like a panic; InsertBlock walks only to an ancestor that CommonAncestor has met on the way.
-- Of the others:
-- ReorgBase the number of stored blocks plus one, since each round but the last sees two blocks
-- of another height; NextTransaction and NextBlock two, since a buffer that was just filled ends
-- in an entry or in nil; findMissingBlocks two more than its limit; waitTillRPCServerReady one
-- more than its timeout in milliseconds, since a round adds 100; Seek takes it as an argument, one
-- for each event and one to stop. The loops of Run, of the subscriber and of the statistics have
-- none: they are relations, and a theorem about them is one about every sequence of their steps.
--
-- Goroutines. A step is what a goroutine does between two points at which another one can be
-- noticed: a test of the cancel flag, a select, a receive, one call of processMessage, a send or a
-- receive on the channel quit. Any step that is ready may come next.
--
-- Left out: logging and the text of the statistics, the fields LastEvent, BlockHeight and
-- IndexInBlock, which nothing reads, the texts of errors but for what they wrap, the parsing of the
-- flags, the programs without a body (cmd/api) and the random data for tests of src/test. Code of
-- other packages is a parameter of the functions that call it: btcd is Btcd, the answers of the
-- node at the start of the daemon are BitcoinRpcClient, net/url, encoding/json, rpcclient and btcutil
-- are Library, zmq4 is Socket and what a receive returns, and os and database/sql are Disk and
-- Engine. The capacity of a script is taken to be its length.
pub mod Common
pub mod Types
pub mod Errors
pub mod Wire
pub mod Storage
pub mod Mempool
pub mod Zmq
pub mod Rpc
pub mod Daemon
pub mod Program
mod Tests
