-- ===== src/Lib.antt =====
-- A verification library for RedGo, a Redis server in Go: the wire protocol, the data structures
-- behind the keys, the commands of a database, and the log of the commands with its replay.
--
-- How the parts of the program interact. A connection's bytes go through `parseIt`
-- (resp/parser/parser.go), which sends replies as payloads; an array of bulks is a command line. The
-- database (database/db.go) looks the command up in its table, tests the arity, locks the keys that
-- the command's `prepare` function names, and calls the handler. The handlers (database/strings.go,
-- key.go, list.go, hash.go, set.go, zset.go) read and write the sharded dictionary of keys
-- (datastruct/dict/concurrent_dict.go) and the objects that it holds, log what they did by `addAof`,
-- and answer with a reply (resp/reply), whose `ToBytes` goes back on the wire. A server has several
-- databases (database/standalone_database.go); what they log goes to a file (aof/aof.go), which the next
-- start reads through the parser and runs again.
--
-- Which file models which part.
--   Base       the shared names of the libraries, lists and integers over the native numbers, bytes.
--   Strconv    what the code uses of Go's strconv: Itoa, FormatInt, ParseUint, ParseInt.
--   GoMap      Go's maps with string keys, as association lists.
--   Reply      resp/reply/consts.go, error.go, reply.go: the replies and `ToBytes`.
--   Parser     resp/parser/parser.go: `readLine` is read_line, `parseMultiBulkHeader`,
--              `parseBulkHeader`, `parseSingleLineReply` and `readBody` are the functions of these
--              names, one round of the loop of `parseIt` is round, and the goroutine is parse_it.
--              Parser/Steps, Lines, RoundTrip and Faults hold the proofs.
--   Dict       datastruct/dict/concurrent_dict.go: `PutWithLock` is put_with_lock, and so on.
--              Dict/Locks models `toLockIndices`, `RWLocks` and `RWUnLocks` as the locks that they
--              take and give back, and Dict/Locks/Clients the steps of clients that do so at the same
--              time. Dict/Laws, Dict/Count and the other children of Dict/Locks hold the proofs.
--   Wildcard   lib/wildcard/wildcard.go: `CompilePattern` is compile_pattern, `IsMatch` is is_match,
--              with one function for a cell and one for a row of its table. Wildcard/Matches holds
--              the proofs.
--   Hash       datastruct/hash/hash.go: `Set` is set_field, `Delete` is delete_field, the others
--              keep their names. Hash/SwapOut and Hash/Refine hold the proofs.
--   IntSet     datastruct/set/int_set.go: `insertAt` is insert_at, `findPosition` is find_position, and
--              so on, over the bytes of the slice and its capacity. IntSet/Order and Edits are about
--              ascending lists, Words about the bytes of an integer, Search, Slices, Update and Upgrade
--              hold the proofs on the operations.
--   HashSet    datastruct/set/hash_set.go: the methods keep their names. HashSet/Numbers and Keys are
--              about the members of each representation, Refine, Edits and Members hold the proofs.
--   Score      the scores of sorted sets, numbers of `float64`, and the order of the entries of a skip list.
--   Slice      the slice of a list that two signed indices name.
--   SkipList   datastruct/skiplist/skiplist.go: `Insert` is insert, `Delete` is delete, `randomLevel` is
--              random_level, over nodes that are numbers and a function from them to what they hold;
--              SkipList/Reads models `CountInRange`, `RangeByScore`, `RangeByRank` and `GetRank`.
--              SkipList/Order is about ordered lists, Levels, Search and Splice about one level, Pointers
--              and Unlink about the loops that write pointers, Valid is what holds between the
--              operations; NewNode and Insert, Removal and Delete, Range, Page and Rank hold the proofs.
--   ZSet       datastruct/zset/zset.go: the methods keep their names. ZSet/Items, Nodes and Pairs are
--              about the members of each encoding, Valid, Grow and Laws hold the proofs; ZSet/Whole is a
--              number system for the tests.
--   ConsistentHash  lib/consistent_hash/consistent_hash.go: `AddNodes` is add_nodes, `PickNode` is
--              pick_node; the hash function is a parameter. ConsistentHash/Search, Ring, Pick and Join
--              hold the proofs.
--   Database   database/db.go, command.go, tx_utils.go, lib/util/util.go and
--              interface/database/database.go: a database and the execution of a command.
--              Database/Strings, Keys, Lists, Hashes, Sets and ZSets model the files of these names; a handler
--              `execLPush` is exec_l_push. Database/Table is the command table that the `init`
--              functions fill; Prepare and Covers are about the keys that the commands lock, and Locks
--              about the locks of an execution. Database/Sets/Draws models SPOP and SRANDMEMBER,
--              Database/Sets/Calculate the unions, intersections and differences. The other child
--              modules hold the proofs.
--   Standalone  database/standalone_database.go: `Exec` is exec, `execSelect` is exec_select; a
--              connection is the index that it has selected. Standalone/Laws holds the proofs.
--   Aof        aof/aof.go: `handleAof` is handle_payloads, over the file and `currentDB`, and handle_aof
--              is the bytes that it writes; `LoadAof` is load_aof, over the parser and a database that is
--              a parameter, with finish_load behind its loop, and `NewAofHandler` is new_aof_handler.
--              Aof/Lines, Replay and Restart hold the proofs.
-- The modules named Examples apply the theorems at concrete inputs.
--
-- State and errors. A handler is a function from the database and its arguments to an outcome and the
-- database after it. An outcome is a reply or a panic (a failed type assertion, a nil pointer, an
-- index out of range); what was written before a panic stays written. A database is its dictionary
-- and the list of the command lines that were passed to `addAof`. An object under a key is reached by
-- that key alone, so a change of it is a write of the key. `none` stands for a nil slice and a nil
-- interface.
--
-- Bounds and fuel. The stream of the parser is the list of the bytes before its end; its loop runs on
-- fuel for one round more than there are bytes, which is enough since every round takes a byte or
-- ends the loop (Parser/Steps). A `make` above 2^48 bytes panics, as on 64-bit Linux. `Itoa` runs on
-- fuel for as many digits as the number. Hashing is on 32 bits and the count of the dictionary wraps
-- at 2^32. The binary search of an integer set runs on fuel for one round more than there are
-- integers, which is enough since every round takes one from the range (IntSet/Search); the theorems on
-- an integer set are for fewer than 2^28 integers, whose bytes are counted on 32 bits, and a set turns
-- into a map past 512. A level of a skip list is walked on fuel for one round more than there are
-- items, which is enough since every round passes one (SkipList/Levels), and the level-0 loops of its
-- reads on fuel for its length.
--
-- Choices. A `range` over a map visits the entries in the order of the list, where Go leaves the order
-- open. `strings.ToLower` is on ASCII text. The methods of the dictionary that lock and those that do
-- not have the same meaning in sequence, and a command runs alone: the locks that it takes and gives back
-- are part of its result, and the interleaving of clients is modelled for these locks only, where a mutex
-- of package sync is a parameter. The generator that SPOP and SRANDMEMBER make from the time is a
-- parameter: the order that `Shuffle` leaves and the numbers that `Intn` draws. A panic of the integer
-- set leaves the database of a set command as it was before the call; its `insertAt` and `removeAt` are
-- for indices and bytes that are in range, which is what its invariant gives. The comparison of scores is
-- a parameter with the laws of a strict weak order, which `float64` has but for NaN, and so are the texts
-- of scores, `sort.Slice` by score, and the draws of the levels of nodes, as one Boolean for each
-- level. In a database a score is the 64 bits of its number. The recover of `Exec` takes every panic for
-- an error: those with a text, for a nil dictionary or a broken integer set, are not modelled.
--
-- Not modelled. The channel and the goroutine of aof/aof.go with a file that cannot be opened or
-- written, the cluster that uses the ring (cluster), and the random picks and the scan of the
-- dictionary. The client, the connections, the TCP server, the configuration and the logger are IO.
pub mod Base
pub mod Strconv
pub mod GoMap
pub mod Reply
pub mod Parser
pub mod Dict
pub mod Wildcard
pub mod Hash
pub mod Database
pub mod Aof
pub mod ConsistentHash
pub mod HashSet
pub mod IntSet
pub mod Score
pub mod SkipList
pub mod Slice
pub mod Standalone
pub mod ZSet
