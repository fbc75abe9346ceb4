-- ===== src/Lib.antt =====
-- muse-kv is a server that keeps named values and answers lines of text: a line is split into
-- words, the first word selects a handler, and the handler works on a hash table of keys. Several
-- servers share the slots of the table: a server passes a line for a slot of another one on to it.
-- This library models the code of src/ from the text functions up to a server with its threads, the
-- encrypted files, the lines that build a cluster, and the client and the recovery program.
--
-- The parts, and the files that model them:
-- Text, Text/Number: `split`, `merge`, `trim` and `strtoint` of src/kvstore.cpp. A text is the
--   list of its bytes; `strtoint` computes in 32 bits and fails on the empty text, where the code
--   throws.
-- LinkedList: the circular doubly linked list of src/linkedlist.h and src/linkedlist.cpp, on a
--   heap of nodes with their pointers; a run fails where the code would follow a pointer that is
--   NULL or freed. LinkedList/Sequence is its contract, the same operations on a list of texts.
-- Hashset: src/hashset.h and src/hashset.cpp, a table of 97 sequences.
-- Hashmap: src/hashmap.h and src/hashmap.cpp, 97 chains of fields and values. All nodes of a map
--   that the code can build stand in the first chain.
-- Kv: the class `kv` of src/kvstore.h with its time to live and its two levels, and the
--   conversions `data_encode` and `data_decode` of src/command.cpp. The value of a node owns its
--   list, set or map, which no other node points to, so the value stands in the node.
-- Hash: the table of src/hash.h and src/hash.cpp, a function from slots to chains. A write
--   through a pointer that `find_node` returned is `update_node`. Hash/Expire is one round of
--   `ttl_expire_background`.
-- Command: the handlers of src/command.cpp, `execute` and `command_type` of src/command.h. A
--   handler takes a command and a table and gives a reply and a table, or fails where the server
--   would crash. The time of day is an argument. Replies are constructors in place of the texts.
--   Command/Files has the handlers of the snapshot file and the texts of all replies. Command/Spec
--   is what each command of one key promises for the cell of its key, and Command/Refines compares
--   the handlers with it, one by one and, in Session and Served, for whole sessions of lines on a
--   map from keys to cells, which forgets the order of the nodes. Command/Safe is about every line.
-- Encrypt: src/encrypt.h and src/encrypt.cpp; what `rand()` returns is a list of draws.
-- Snapshot: the file of keys that `save` writes and `read` reads, of src/hash.cpp and
--   src/hashnode.cpp. A file is its bytes. For a type that is no type the code stores an
--   address that points nowhere and reads on; the run of the model ends there, as `dangling`.
-- Text/Atoi: `atoi` of the C library, for numbers that an `int` holds.
-- Cluster, Distribute, Replica: the lines that src/cluster.cpp, src/distribute.cpp and
--   src/replica.cpp build from their configuration files and send.
-- Server, Server/Scan: the state of src/server_th.h and the functions of src/server_th.cpp that one
--   line of a client runs. What a socket answers is an argument; what is sent, and the lines of the
--   log, are part of the result. An index outside of an array and an exception end the run.
--   Server/Remote has two servers, with the network between them.
-- Server/Threads: `server_accept` and `server_task` of src/server_th.cpp and the loop of
--   src/server.cpp, as a step relation on a server with its connections and the scanning threads
--   that have not run yet. The code shares its state with no mutex, but here a turn or a scan runs to
--   its end in one step: what two that overlap may do to one another is not modelled. Server/All has `all_keys` and
--   `all_save`.
-- Client: `get_replica_info` of src/client.cpp, on an exchange of lines with a server; in
--   Client/Protocol the server is that of Server/Scan. Client/Loop has `task_client` and the loop of
--   `main` on the lines that are typed.
-- Recover: src/recover.cpp, which sends the lines of a file. Server/Channel is the server at the
--   other end of a client that waits for each answer, and the bytes on their way: an empty line or
--   answer sends none, `recv` takes at most 1024 or waits, and "quit" closes the connection. A line of
--   1024 bytes or more ends the run of the model.
--
-- Loops over a list are recursion on the list. The recursions on a number count down the length of
-- a list, the slots of the table, or, in `find_loop`, `print_loop` and `destroy_loop`, the field
-- `length`, which in a well-formed list is the number of nodes, so that it suffices.
-- `gcd_acc` recurs on the accessibility of its first argument, which shrinks.
--
-- Not modelled: the endless loop around `expire_round` (Hash/Expire), for which no thread is
-- started; mutexes (a handler runs to its end before the next starts), and
-- with them that `del` unlocks the mutex of a node that it has freed; the destructors of the table
-- and the values, which only free; the constructor of a table with boundaries, which nothing calls;
-- `new` running out of memory; the calls that open sockets; the loop of `key_generator`, which reads
-- the terminal; and what is printed for the operator only.
pub mod Prelude
pub mod Text
pub mod LinkedList
pub mod Hashing
pub mod Hashset
pub mod Hashmap
pub mod Kv
pub mod Hash
pub mod Command
pub mod Tests
pub mod Encrypt
pub mod Snapshot
pub mod Cluster
pub mod Distribute
pub mod Replica
pub mod Client
pub mod Recover
pub mod Server
