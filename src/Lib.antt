-- ===== src/Lib.antt =====
-- FunDB: the consensus module, the storage engine, and the path of a query to it.
--
-- crates/fundb-raft replicates a log between nodes. crates/fundb-storage keeps records in an LSM
-- tree: a write goes to the write-ahead log and to the active memtable; a full memtable is frozen,
-- waits for a flush task and becomes a sorted file; a compaction merges files. A read asks the
-- active memtable, the frozen ones and the files, newest first. crates/fundb-core holds the record
-- types, their builder and the Bloom filter of a file. crates/fundb-sql reads the text of a query;
-- crates/fundb-optimizer rewrites its plan, and crates/fundb-executor runs the plan on the LSM tree.
-- crates/fundb-cluster maps records to shards and shards to nodes;
-- crates/fundb-indexes keeps the edges between records.
--
-- Files, and the code they are about:
--   Prelude, Prelude/*         tests, lists and results that all parts share
--   Assoc                      `HashMap` with u64 keys
--   Order, Order/*             `Ord` on byte strings, and `BTreeMap` as a sorted list
--   Raft/Types, Raft/State     crates/fundb-raft/src/raft.rs: data, `RaftState` and its helpers
--   Raft/Append                `RaftState::handle_append_entries`
--   Raft/Vote                  `RaftState::handle_request_vote`
--   Raft/Commit                `RaftState::advance_commit_index`
--   Raft/Storage               `RaftStorage` and `MemoryRaftStorage`
--   Raft/Node                  `RaftNode`, whose methods take the storage as a record of operations
--   Raft/Steps                 a node as a state machine, and runs of it
--   Raft/Contig                logs with consecutive indices
--   Core/Record, Core/Builder  crates/fundb-core/src: types.rs, record.rs, codec.rs, builder.rs
--   Core/Bloom                 `BloomFilter` of crates/fundb-core/src/page.rs
--   Storage/MemTable           crates/fundb-storage/src/memtable.rs
--   Storage/Sstable            crates/fundb-storage/src/sstable.rs
--   Storage/Compaction         crates/fundb-storage/src/compaction.rs
--   Storage/Wal                crates/fundb-storage/src/wal.rs
--   Storage/Lsm                crates/fundb-storage/src/lsm.rs
--   Storage/Mvcc               crates/fundb-storage/src/mvcc.rs
--   Storage/BlockCache         crates/fundb-storage/src/block_cache.rs
--   Sql/Plan                   crates/fundb-sql/src/logical_plan.rs
--   Sql/Token                  crates/fundb-sql/src/token.rs
--   Sql/Chars, Sql/Comments, Sql/Literals, Sql/Lexer
--                              crates/fundb-sql/src/lexer.rs
--   Sql/Ast                    crates/fundb-sql/src/ast.rs
--   Sql/Parser                 crates/fundb-sql/src/parser.rs: the position in the tokens; Exprs,
--                              Clauses, Weights, Select, Statements, Create, Causal, Understand
--                              and Top below it hold the functions of its sections;
--                              Printed and RoundTrip are about expressions written as tokens:
--                              the development's own printer, which has no part in the code, of
--                              literals, names, operators, NOT LIKE, BETWEEN, NOT and IS NULL
--   Sql/Front                  `parse` of crates/fundb-sql/src/lib.rs
--   Optimizer/Rules            crates/fundb-optimizer/src: rules.rs and lib.rs
--   Executor/Batch             crates/fundb-executor/src/batch.rs
--   Executor/Eval              crates/fundb-executor/src/operators/filter.rs: predicates
--   Executor/Operators         crates/fundb-executor/src/operators
--   Cluster/Hash, Cluster/Sharding
--                              crates/fundb-cluster/src/sharding.rs
--   Indexes/Graph              `GraphIndex` of crates/fundb-indexes/src/graph.rs
--   Indexes/Temporal           crates/fundb-indexes/src/temporal.rs
--   Executor/Dispatch          `Executor` of crates/fundb-executor/src/lib.rs
-- Files below these hold their lemmas and theorems, and the files named Tests hold runs at concrete
-- inputs.
--
-- How state is modelled. A method that changes its receiver is a function from the old state to
-- the new one, with its result beside it where it has one. What a call reads from the clock is an
-- argument. Integers are natural numbers with the wrap-around of u64 written out where the code
-- computes; the model takes release builds, where an overflow wraps. A u64 counter of entries and
-- the 4 GiB that a frame's length can express are conditions of the theorems that need them.
-- Strings are byte strings, and a float is its bit pattern.
--
-- Fuel. `recover_from` and `count_from` of Storage/Wal read a file frame by frame with the length of
-- the file as fuel. A frame has eight bytes at least, so that is enough; the round trip of whole
-- logs shows it. `skip_whitespace_and_comments` and `tokenize_from` of Sql take one more than the
-- length of the text, and each round of their loops consumes a character; Sql/Lexer/Ends shows that it
-- is enough. The parser's functions call one another through a record of parsers for the levels of
-- nesting inside (`Inner`), and `parse_statement` starts with as many levels as there are tokens; a
-- loop of the parser takes one more than the number of tokens, since each round takes one.
-- Sql/Parser/Total shows that both are enough. The search of Indexes/Graph takes one more than the number of edges; Indexes/Graph/Search
-- shows that it is enough. The rounds of the optimizer are the eight of the code. All other loops are structural.
--
-- Parameters. Code of other packages is a parameter: the xxh3 hash functions, MessagePack
-- (`Codec`), the sizes of a Bloom filter, which are computed with floats, and the size of a record in
-- memory. A raft storage is a record of operations with the laws that a node relies on, which the
-- storage in memory satisfies (Raft/Storage/Laws).
--
-- The executor takes the arithmetic and the comparison of floats, and MessagePack, as parameters; the
-- lexer takes the Unicode tables and the parser of floats.
--
-- Not modelled: the bytes of a sorted file, failures of the file system, the transport between
-- nodes and the timers that start elections, the locks, the LSM tree's use of its block cache, the
-- binder of FunQL, the cost model of the optimizer, queries over several nodes, the
-- other indexes, and the other crates (protocol, server and the layers on floating-point scores).
-- The round trip of expressions does not cover IN, CASE, calls, arrays, vectors, intervals, `*`,
-- subqueries and names that are keywords, which the parser's model has.
pub mod Prelude
pub mod Assoc
pub mod Raft
pub mod Order
pub mod Core
pub mod Storage
pub mod Sql
pub mod Optimizer
pub mod Executor
pub mod Cluster
pub mod Indexes
