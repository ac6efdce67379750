-- ===== src/Lib.antt =====
-- Models and proofs of mango-agent, the monitoring agent that reports a host's state to a server,
-- runs its requests, transfers files and hands out time-limited SSH keys.
--
-- Parts of the program and the files that model them:
-- * Netstatic (monitoring/netstatic/static.go): traffic per interface. A detect tick turns the
--   counters of the system into records in a cache, a save tick merges the cache into the store,
--   purges what is too old and writes the save file; queries sum the store and the cache. `Data` has
--   the package's variables as the record `State`, `Ops` sampleOnceLocked, flushCacheLocked and
--   purgeExpiredLocked, `Query` the functions that report, `Control` files, tickers and
--   configuration. The other modules prove.
-- * Sshauth (sshauth/sshauth.go): leases of SSH keys in authorized_keys files, each with a tag line
--   and a timer. `World` has the files and the timers, `Ops` AuthorizeKey and RevokeKey, `Reconcile`
--   ReconcileLeases.
-- * Upload (server/file_stream.go and the part of server/files.go on uploads): `Spec` checks a
--   chunk's metadata, `Lifecycle` counts the active streams of an upload and cancels them, `Chunks`
--   writes a chunk into the part file, `Commit` ends an upload.
-- * Files (the rest of server/files.go): `Dispatch` chooses an operation and returns its result,
--   `Search` searches names and contents, `Moves` moves, copies and deletes.
-- * Host (monitoring/unit/mem.go and monitoring/unit/cgroup.go): memory of the host and limits of the
--   container. `Meminfo` reads /proc/meminfo, `Cgroup` walks over the control groups, `Ram` picks
--   what is reported.
-- * Server (server/websocket.go, server/task.go, server/mining.go): `Events` marks the events that
--   the server sends as seen, starts what they ask for and collects those to acknowledge; `Loop`
--   connects, falls back to POST and reports; `Tasks` runs commands and uploads their results;
--   `Probes` measures by ICMP, TCP and HTTP, and `Ping` measures again after a high latency.
-- * Update (update/update.go): `Releases` lists releases and chooses one, `Check` is the check for
--   an update.
-- * Disk (monitoring/unit/disk.go and disk_io.go): `Parts` chooses the partitions, `Usage` sums their
--   use and applies the quota, `Io` finds the devices whose traffic is reported.
-- * Network (monitoring/unit/net.go): `Interfaces` filters, lists and sums, `Speed` is what is
--   reported, with the totals of Netstatic where months are counted, `Connections` counts.
-- * Miner (monitoring/unit/miner.go): `Snapshot` is the collector's memory, `Status` reads a status.
-- * Dns (dnsresolver/resolver.go): `Resolver` has name servers, the order of addresses, dialling and
--   the cache of clients.
-- * Utils (utils/utils.go): `Reset` is the date of the last monthly reset.
-- * Strings has the functions of Go's strings, bufio and strconv that these parts call, on texts as
--   lists of bytes; white space, and in Disk letter case, is that of ASCII. Base has numbers, lists, and maps.
-- * Tests runs the models on small inputs.
--
-- A Go map is an association list, a `range` over it visits the entries in the order of the list, or,
-- in the lists of disks, in an order that is a parameter, and a map that may be nil is an option. uint64 wraps where it is written out (`add64`, `sub64`, `% u64`);
-- lengths, indices and times that the code has checked to be non-negative are natural numbers. A
-- result `none` is a panic in Netstatic and in the life cycle of uploads, a lack of fuel in the walk
-- over directories and in the connection loop, and elsewhere an error or the absence of a value.
-- Fuel: a walk from a directory gets the length of its path and two, and the decimal digits of an
-- int64 get 20; the pages of releases and the dials of the POST fallback, which the code asks for
-- without end, get a bound that the theorems on them are given.
--
-- What the code asks of the system is a parameter: float64 arithmetic (`Floats`, `MinerFloats`), the
-- files, users and clocks (`Env` of Sshauth and of Upload, `System` of Host, `Fs` of Files), the
-- network (`Net` of Server), the machine and its updater (`Host` of Update), partitions and their use
-- (`DiskSystem`, `Sys` of Disk), JSON parameters (`Decoder` of Server), the counters of gopsutil,
-- `strings.ToLower` in Files, and
-- the times of ticks and the success of dials as arguments. Models are of the Unix build, and where
-- the code asks for the operating system it is a parameter too. Locks are not modelled: each
-- operation is one step, and a chunk is written in three.
--
-- Not modelled: the requests over POST and the pull loop, the terminal, the command line, the reports
-- on processor, system and GPU, listing, creating and describing files with their modes and owners,
-- and the transfer of bytes over HTTP. These are I/O around libraries, or are left for later work.
-- What an event or a tick starts in a goroutine of its own is a value of the model.
pub mod Base
pub mod Strings
pub mod Sshauth
pub mod Upload
pub mod Netstatic
pub mod Host
pub mod Tests
pub mod Server
pub mod Update
pub mod Disk
pub mod Network
pub mod Utils
pub mod Miner
pub mod Dns
pub mod Files
