-- ===== src/Lib.antt =====
-- Verification library of the repository's Go programs.
--
-- The live sequence protocol, project-2/src/example.com/lsp, carries messages over a network that
-- loses, repeats and reorders them. A client (client_impl.go) has a handler goroutine, a receiver
-- goroutine and the methods Read, Write and Close; a server (server_impl.go) has the same, and one
-- handler goroutine for each of its connections. They share state by channels and by a status.
--
-- Which file models what:
-- - Lsp/Message, Lsp/Status: message.go, status.go, params.go.
-- - Lsp/Endpoint: what the two handlers have in common: the buffers and counters of one end, the
--   window, the delivery in order, acknowledgements, sending.
-- - Lsp/Client: `client` of client_impl.go; `handle` is a round of its `handler`.
-- - Lsp/Info: `clientInfo` of server_impl.go; `handle_client` is a round of its `handleClient`.
-- - Lsp/Server: `server` of server_impl.go; `handle` is a round of its `handle`, `run_client` a round
--   of the handler of one connection on the shared server. Lsp/Server/Methods has the methods, the
--   receiver, and `run`, which takes what happens at a server as a list of steps.
-- - Lspnet: the network wrapper of project-2/src/example.com/lspnet under them. Lspnet/Staff is its settings,
--   staff.go and the map of net.go, Lspnet/Conn the reads and writes of conn.go, Lspnet/Messages lsp/io.go.
-- - Lsp/Link: a client, the `clientInfo` that serves it, the server's queue of writes to it, and the
--   network between them, as a step relation. Lsp/Flow and Lsp/Link/* have what its proofs share.
-- - Echo: the echo client and the echo server of crunner/crunner.go and srunner/srunner.go on a connection.
-- - Base: natural numbers, integers, lists and maps that all of them use.
--
-- The mining system, project-2/src/example.com/bitcoin, stands on it: a server cuts the requests of its
-- clients into pieces, hands them to miners, and merges their results.
-- - Bitcoin/Message: message.go. Bitcoin/Best: the test for the least hash that server and miner make.
-- - Bitcoin/Server: the state and `receive` of server/server.go. Bitcoin/Server/Schedule: `schedule`, a
--   round of which may panic. Bitcoin/Server/Schedule/* have its proofs.
-- - Bitcoin/Miner: the search of miner/miner.go. Bitcoin/Programs: the miner and the client around it,
--   miner/miner.go and client/client.go.
--
-- The key-value server, project-1/src/example.com: Kv/Clist is clist/clist.go, Kv/Store p1/kv.go,
-- Kv/Receiver and Kv/Dispatch the two loops of p1/server.go of these names, and Kv/Server the whole
-- server. The buffered channel, bufchan/buffchan.go, is Bufchan.
--
-- MapReduce/Master is the scheduling of project-3/src/mapreduce: `InitMapReduce` of mapreduce.go, and
-- `RunMaster` and `RunWorker` of master.go, as a step relation on the master and its workers. A worker
-- that fails a job, or that cannot be reached, returns; which ones do is part of the run.
-- Of mapreduce.go, MapReduce/Split is `Split`, MapReduce/Jobs how `DoMap` and `DoReduce` divide and gather
-- pairs, MapReduce/Files the jobs and `Merge` on the files, and MapReduce/Run the runs `Run`, `RunSingle` and
-- `CleanupFiles`. MapReduce/Names has the names of the files, MapReduce/Registration the registration server,
-- MapReduce/Text what they do with strings. MapReduce/Worker is the RPC loop of worker.go,
-- MapReduce/WordCount `Map` and `Reduce` of project-3/src/main/wc.go.
--
-- Midterm is `fibonacci` of midterm.go.
--
-- How the code is read:
-- - A select is a choice that the environment makes (`Turn`, `Choice`), so a theorem about all
--   schedules covers each one that the runtime takes. The case of an empty channel does nothing.
-- - A round of a handler is one step. What it sends to a channel or to the network is part of its
--   result. Go starts a goroutine for a write to the network; Lsp/Link delivers in any order.
-- - A channel is a queue without a bound. A full channel of the code blocks its sender, which delays
--   steps and takes none back.
-- - A map is an association list. Loops over a map are over the list in its order; the messages that an
--   epoch sends again come in that order, which the network of Lsp/Link does not keep.
-- - The inner loop of a handler runs on fuel, the length of the receive buffer. Each round takes an
--   entry out.
-- - An `int` that counts messages is a natural number: 64 bits are more than a connection sends.
--   Connection and sequence numbers that come from the network are integers. Parameters are natural
--   numbers.
-- - A payload is a list of bytes; the code never writes to a payload that it has stored.
-- - Floating-point functions (`Floats`, `floor_log`) and the hash of the mining system are parameters;
--   theorems name what they need of them. `uint64` arithmetic wraps where it could.
-- - `receiver` of the key-value server runs on fuel, the number of bytes of its input; each round takes
--   one at least.
-- - A string of the word count is a list of code points, with the length and the order of its UTF-8. A
--   scanner's line is at most 65536 bytes, as in package bufio. `Itoa` makes at most 20 digits, which is
--   enough for 64 bits.
-- - Files of a MapReduce run are found by job numbers; `Run` takes the order in which the workers do the
--   jobs as two lists, and the master's steps give such lists.
-- - encoding/json, package net, random numbers, the hash and the table of letters are parameters.
--
-- Not modelled: RPC, sockets, the resolving of addresses, logging, time (an epoch is a choice of the
-- schedule), and the programs that only read arguments and call the library.
pub mod Base
pub mod Bitcoin
pub mod Bufchan
pub mod Echo
pub mod Kv
pub mod Lsp
pub mod Lspnet
pub mod MapReduce
pub mod Midterm
