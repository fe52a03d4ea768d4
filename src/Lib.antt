-- ===== src/Lib.antt =====
-- The pure core of runtime-go, the Go runtime of the protobuf project: its parsers and printers, its
-- retry and delivery state machines, and what keeps them correct. Each part is a tree of modules: the
-- definitions that are translated from the source stand in its root, the proofs in its children, and
-- tests and applications to concrete inputs in its Examples.
--
-- Prelude: the names that all share. Tests has the Boolean tests on numbers, Lists the lists measured
--   by them and byte strings (Bytes), Outcome the pair (value, error) of a Go function (Result), Hex
--   encoding/hex.
--
-- ContentLine: rfc/internal/contentline, the lines of iCalendar and vCard, over bytes.
--   Text is what package strings does there. Escape is escape.go and SplitUnescaped of line.go
--   (unescape, escape, split_compound, split_list, join_list, split_unescaped). Fold is Fold of
--   escape.go and Unfold of line.go; the loop of Fold has as many rounds of fuel as the line has bytes,
--   and a round takes at least one. Line is Parse of line.go, EscapeParam of escape.go and
--   encodeExtension of rfc/internal/ical/encode.go. strings.ToUpper is the code's own table on ASCII
--   and the parameter unicode_upper beyond it.
--
-- Icaltime: rfc/internal/icaltime/icaltime.go and rfc/internal/ical/time.go.
--   Decimal writes and reads numbers (one round of fuel more than the number is enough for its
--   digits). Date is ParseDate, ParseDateTime, decodeTime and encodeTime. Duration is ParseDuration
--   and EncodeDuration, with the wrap-around of int64 written out. Lines that ContentLine.Line parses
--   are what Date decodes.
--
-- Idempotency: grpc/idempotency/idempotency.go. intercept is the interceptor, over any Store: it
--   claims the key of a request (claim_key), runs the handler and settles (run_claimed, finish,
--   settle), or replays what it finds (replay, answer, refuse). The world is the store's state, what
--   the handlers keep, and the log. Claim.IsStore says what a store promises, Replay.IsCodec what
--   protojson and anypb do; KeyMap is a store that keeps the promise. The texts of statuses and log
--   lines are constructors of Error and Log.
--
-- Events: the package events. Sealing is sealing.go (new_sealer, seal, open_secret) and Signing
--   signing.go (sign_at, verify), with base64, SHA-256, HMAC and AES-GCM as parameters. Delivery is
--   attempt, post and Backoff of dispatcher.go over the records of store.go: an attempt claims a
--   delivery (claim), sends it (deliver, post) and writes how it ended (conclude, write). The readings
--   of the clock in one attempt are the record Clock; AttemptCount is an int32 bit pattern. Feed and
--   Feed.Dispatch are dispatch, dispatchFeed, recordAll, record and the dispatcher's maps, with the
--   names of cloudevents.go; a loop over page tokens is a recursion on the pages that the reads give
--   (Pages), and a time before the Lag is 0. What the stores promise is Attempt.IsGuarded,
--   Positions.KeepsPositions and Recording.KeepsDeliveries. A delivery's secrets are opened by Sealing
--   and its request signed by Signing.
--
-- Cache: cache/core. Keyspace is keyspace.go, the names of keys. Aside is the read-through view of a
--   loader, aside.go, loader.go and envelope.go (get_or_load, load_and_store, claim, pack, unpack),
--   over the states of a world in which the backend, the loader and the lock live. Coherence says what
--   the backend (IsBackend, which may lose entries at any time), encoding/json (IsJson) and the loader
--   (IsLoader) promise. A caller is alone: that flight.go refuses a load is the parameter is_full, and
--   a refresh in the background is the flag of get_or_load, with refresh as the
--   later call (Adapter.background through a cached driver); that one is running already, or that the
--   budget is full, is that it is not called.
--   Indexed is filing.go: the sets of the ids under a field and value, and the record of an id's pairs;
--   Pairs.IsSets says what a backend's sets promise.
--
-- Database: Cached is database/cached, the driver that reads a store through that cache: get, create,
--   update, delete, forget, transactions (Transactions.run, with recorder as the driver of a body) and
--   the adapter (Adapter.from_aside). Its errors are those of the store;
--   Coherence.IsStore and IsProto say what a store and package proto promise. Memory and Promises are a
--   store and a cache in memory that keep the promises. The theorem on sequences of
--   operations (perform_all) is about one resource; two share their entries (Sharing). A transaction of
--   it makes a list of writes (write_all), up to the first that fails; Recording and Committed hold the
--   lemmas on it. Filter is database/core/filter.go, over the runes of an expression: parse_filter,
--   split_conjunction, parse_clause and bare_word. strings.EqualFold is used there at AND and OR, whose
--   letters fold within ASCII.
--
-- Memstore: rfc/caldav/memstore/store.go, the calendars in Memstore and their objects in
--   Memstore.Objects. The maps of a store are functions (Prelude.Table), and its
--   methods step from store to store (create_calendar, put_object, delete_object and the others); a
--   message is the fields that the store reads and writes, and the others as they are. The number of
--   the etags wraps at 64 bits. planSplit of split.go, the stamp of an override's instance and SHA-256
--   are the parameters Calls.
--
-- Times and durations are native numbers of nanoseconds, with 0 for the zero time. Not modelled: the
-- network, the drivers of databases and message queues, concurrent loads of one cache entry, documents
-- of the cache, recurrence rules, generated message types, metrics beyond what is
-- counted, and the parallel sending of one batch of deliveries; they are I/O over other packages.
pub mod Prelude
pub mod ContentLine
pub mod Icaltime
pub mod Idempotency
pub mod Events
pub mod Cache
pub mod Database
pub mod Memstore
