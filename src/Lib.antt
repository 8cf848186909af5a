-- ===== src/Lib.antt =====
-- tcp-info: the collection of TCP statistics from the kernel's netlink socket, as it is written in Go.
--
-- Every few milliseconds the collector asks the kernel for its TCP sockets and hands the answers to
-- the saver. The saver turns each netlink message into an archival record (netlink/), compares it
-- with the record of the same connection from the round before (cache/), counts bytes sent and
-- received, and queues what has changed to a marshaller, which anonymizes the addresses (inetdiag/)
-- and writes a line of JSON to the connection's file.
--
-- The modules:
--   Base      names of the libraries, Boolean tests, lists over the native numbers, results with
--             errors and panics, Go maps as association lists, 64-bit integers
--   Bytes     Go slices with their capacity, and integers in bytes
--   Inetdiag  inetdiag/structs.go: `Parse`, `SplitInetDiagMsg`, `LinuxSockID`, addresses, `Anonymize`
--   Netlink   netlink/: attributes (`ParseRouteAttr`), records (`MakeArchivalRecord`, `HasDiagInfo`,
--             `GetStats`, `SetBytesSent`), their comparison (`Compare`), and reading them back (Load)
--   Cache     cache/cache.go: `Update` and `EndCycle`
--   Saver     saver/saver.go: `queue`, `endConn` and `Rotate` (Queue), `swapAndQueue` and `handleType`
--             (Swap), `MessageSaverLoop` and `Close` (Rounds), `runMarshaller` (Marshal)
--             and what is read back from its files (Marshal/ReadBack); what reaches the files of a
--             connection (Files) and, as a reference, which records are archived (Archive)
--   Snapshot  snapshot/snapshot.go: `Decode` with its conversions and the structs of inetdiag/ and
--             tcp/tcpinfo.go, `Reader.Next` and `LoadAll`
--   Collector collector/: `makeReq` (Request), `processSingleMessage` and `OneType`, `Run` (Run)
--   EventSocket  eventsocket/: the server's goroutines (Goroutines) and their interleaving (Steps),
--             and `MustRun` of client.go (MustRun)
--   Pipeline  main.go: the collector, then the saver on what it has sent, then its marshallers, with no
--             event socket given
--   Csvtool   cmd/csvtool/main.go: an archive to CSV
--   Tcp       tcp/tcpinfo.go: the names of the TCP states
--   Zstd      zstd/zstd.go: `NewWriter` with its goroutine, and the `Close` that waits for it
--   Tests     small inputs
-- A definition has the name of the Go function in lower case with underscores. Where a Go function is
-- long, its parts are definitions of their own, composed in its order.
--
-- State. The saver is a record that is passed on from step to step, with its channels, files and
-- events as lists of what was sent. A Go map is an association list; the order in which Go walks
-- one is a parameter. A slice is its bytes up to the capacity with a length, so that what a cut past
-- the length shows is in the model. A cast through `unsafe.Pointer` reads the struct's fields at
-- their offsets on a little-endian machine. A Go function comes to a value, an error or a panic.
-- That the marshaller writes into a record that the cache still holds is a change of that record
-- (`anonymize_record`).
--
-- The event server is a record too, with the places at which its goroutines stand; a turn is one
-- step of one of them, or a call from outside. A write to a client is part of a step of the notifier:
-- where a client does not read, that step does not happen, and all that waits for it waits. The saver's events are a list of what it sends: that
-- the server may block on one, or panic once its channel is closed, is a matter of EventSocket alone.
--
-- Numbers are unbounded naturals where Go's cannot overflow here; `uint64` sums wrap. The counters
-- of the statistics and of the cache's rounds (`int64`, one step at a time) are not bounded. Times
-- are nanoseconds since Go's zero time.
--
-- Loops over lists are structural. `ParseRouteAttr` runs on fuel, the length of its slice, of which
-- each round takes four bytes at least. `Run` runs on fuel, one more than the rounds that it may do.
--
-- Parameters, for code that is not in the repository: the clock, the creation of directories and
-- files, the order of Go's maps (of which one proof uses that it visits every key) and
-- `uuid.FromCookie` (the record `Os`); the IP anonymizer, of which the proofs use that it keeps the
-- length of its slice; the JSON text of a record, the lines of a file and the record of a JSON text,
-- of which one proof uses that the text is a line that is read if it has less than 65536 bytes, and
-- that a longer one ends the scanner; the netlink socket and the context
-- of each round of the collector; the coding of events in JSON, and which writes to a connection of
-- the event server fail; what the operating system answers to zstd/, and when its command ends.
--
-- Not modelled: logging and metrics, but for the two rate histograms; the event server that does
-- nothing, what the zstd process does with its bytes, the reader through it, the example client, what
-- main.go starts beside the collector and the saver, and its event server where one is given.
pub mod Base
pub mod Bytes
pub mod Inetdiag
pub mod Netlink
pub mod EventSocket
pub mod Cache
pub mod Saver
pub mod Snapshot
pub mod Collector
pub mod Pipeline
pub mod Csvtool
pub mod Tcp
pub mod Zstd
mod Tests
