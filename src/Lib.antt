-- ===== src/Lib.antt =====
-- A verification library for the download queue daemon: its job table, the service behind the HTTP
-- API, and the runner that resolves, starts, follows and decrypts downloads.
--
-- The parts and how they interact. A client asks the service (internal/queue/service.go) to create,
-- pause, resume, retry or remove a job; the service writes the job table (internal/queue/store.go, a
-- SQLite database) and speaks to aria2. The runner (internal/queue/runner.go) wakes up on a ticker:
-- it follows the downloads that aria2 runs, schedules decryptions, requeues failed jobs whose time
-- has come, and then claims queued jobs and starts them while there is room. A resolver
-- (internal/resolver/resolver.go) turns a job's URL into what aria2 downloads, and a decryption runs
-- in a goroutine of its own. The daemon (cmd/dlqd) puts the parts together out of its environment, and
-- the command line (cmd/dlq) makes requests to the API.
--
-- Which file models which part:
--   Queue/Job.antt, Queue/Store.antt   the rows, CreateJob, GetJob, ListJobs, the other queries and
--                                      the events of internal/queue/store.go, with the schema's
--                                      defaults of internal/db/db.go
--   Queue/Store/Marks.antt             UpdateResolving, the Mark methods, Requeue, Remove,
--                                      ClearCompleted and ClearAll
--   Queue/Store/Claim.antt             ClaimNextQueued
--   Queue/Service.antt                 internal/queue/service.go
--   Queue/Runner.antt                  the Runner record, concurrency, mapResolverError,
--                                      mapDownloadError and the names of outputs
--   Queue/Runner/Start.antt            resolveAndStart and what it calls
--   Queue/Runner/Active.antt           updateActive and dispatchCompletedDecrypt
--   Queue/Runner/Decrypt.antt          buildDecryptTask, the pending marks and runDecrypt
--   Queue/Runner/Tick.antt             tick, requeueFailed and countDownloading
--   Queue/Archive.antt                 the names of archives, internal/queue/archive_decryptor.go
--   Queue/Paths.antt, Queue/Status.antt   internal/queue/paths.go and internal/queue/status.go
--   Queue/Engine.antt                  internal/queue/downloader.go and aria2's status record
--   Resolver.antt                      the registry of internal/resolver/resolver.go
--   Resolver/Mega.antt, Resolver/Webshare.antt   the resolvers of MEGA and Webshare links,
--                                      internal/resolver/mega.go and webshare.go
--   Mega.antt                          links and keys of MEGA files, internal/queue/mega_decryptor.go,
--                                      with the MAC calculator in Mega/Mac.antt and the
--                                      decryption in place in Mega/Files.antt
--   Aria2.antt                         the JSON-RPC client, internal/downloader/aria2.go
--   Api/Settings.antt                  internal/api/settings.go
--   Api/Http.antt, Api/Jobs.antt, Api/Browse.antt, Api/Configure.antt   the handlers of
--                                      internal/api/http.go
--   Dlq/Add.antt                       `dlq add`, cmd/dlq/add.go
--   Dlq/Status.antt                    the numbers and names of `dlq status` and `dlq files`,
--                                      cmd/dlq/jobs.go and cmd/dlq/format.go
--   Dlqd.antt                          the environment of the daemon, cmd/dlqd/main.go
--   Queue/Daemon.antt                  a run of the daemon, a sequence of requests, ticks and
--                                      decryptions
--   Go/                                what these use of Go's strings, strconv, sort, errors, filepath and
--                                      os
-- The modules below these hold the proofs, named for what they prove; Examples.antt has the concrete
-- tables on which the theorems are applied.
--
-- How state is modelled. A method is an action `M A` (Queue/World.antt): from the surroundings and
-- the world it returns its result or error and the next world. The world holds the two tables with
-- their AUTOINCREMENT counters, newest row first, the requests made so far, the ids of the pending
-- decryptions and the goroutines started. The surroundings give the clock and, for each step, whether
-- the database driver fails at it; a failed statement changes nothing and returns an error. A
-- transaction keeps the tables it began with, and the code's ROLLBACK restores them; whether a COMMIT
-- that reports an error was carried out all the same is up to the surroundings, and a theorem that
-- needs the driver's promise that it was not has it as a hypothesis, CommitsOrNot. What aria2, the
-- resolvers, the decryptors, os.Remove, os.Stat and the settings answer are parameters, which may
-- answer differently at each step. `url.Parse` with `Hostname` and redactURLForLog are
-- parameters too. A nil interface is `none`.
-- The files of the MEGA decryption and of the settings are paths with contents (Go/Os.antt): each
-- operation fails and changes nothing, or is carried out, and a read returns a piece of any length
-- from one byte on. The cipher and its key stream, base64, JSON, and the exchange with aria2 are
-- parameters of these parts, as are the answers of the servers of MEGA and Webshare in the resolvers.
--
-- Bounds. Texts are lists of bytes, and case and spaces are those of ASCII. Times are whole seconds,
-- as RFC 3339 texts in UTC keep them. `int64` columns are signed integers, and the one subtraction
-- that can leave their range, in the ETA, wraps around; ids and counters are unbounded. The loop of
-- tick is recursion on rounds, one more than there are rows: each round takes a queued row off the
-- queue. The loop of ClaimNextQueued has one round: its UPDATE meets the row that the transaction
-- has just read. A decimal is printed with as many rounds as its value allows.
--
-- Not modelled: goroutines run one after the other, so that a request does not fall between two
-- statements of a tick; a failed write leaves no part of its bytes; the wait for a decrypt worker is
-- a Boolean; the order of header lines, which Go leaves open, is the list's; an event is a row where
-- the program prints a line; log lines, the routing of requests and the printing of JSON are left
-- out. The rest of the command line and the opening of the database are left out; the tools that
-- unpack archives appear as the parameters above where the modelled parts use them.
pub mod Prelude
pub mod Go
pub mod Queue
pub mod Mega
pub mod Resolver
pub mod Api
pub mod Aria2
pub mod Dlq
pub mod Dlqd
pub mod Examples
