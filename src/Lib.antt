-- ===== src/Lib.antt =====
-- Verification of the Go runtime, the configuration and the template functions of xll-gen: the
-- guest->host transfers, the reassembly of chunked requests, the RTD topics, the queue and the flush
-- of async results, the commands on cells, the job pool and the teardown, the mesh of cells into
-- rectangles, the checks and defaults of xll.yaml, and what the templates are given to write.
--
-- How the parts interact. A payload that exceeds a slot of the shared memory is cut into chunks
-- (pkg/chunk) and sent over a transport; the receiver of chunks is the system handler
-- (pkg/server/handlers.go), which keeps the transfers in the chunk manager (pkg/server/manager.go) and
-- the byte ranges of each in its buffer (pkg/server/types.go). The handlers also store the payloads of
-- composite arguments in the reference cache, which the end of a calculation clears before it flushes
-- the commands. The RTD manager (pkg/rtd/manager.go) keeps which topic follows which key and sends
-- updates and one-shot grids to the host, the grids with the sender of pkg/chunk; RunOnce and
-- RunOnceGrid (pkg/rtd/runonce.go) use it. Async results wait in the async batcher
-- (pkg/server/batcher.go) and are flushed to the host with the same sender
-- (pkg/server/async_batcher.go); the job pool runs the handlers that produce them, and the teardown
-- (pkg/server/lifecycle.go) stops these paths before it unmaps the shared memory. The command batcher
-- (pkg/server/command_batcher.go) buffers the cells that handlers set, and the mesh (pkg/algo) packs
-- them into rectangles when it flushes. The generator and the command line read a configuration,
-- complete it and check it (internal/config) before any code is generated.
--
-- Files.
--   Prelude          shared types, Boolean tests, lists, maps as association lists, signed integers,
--                    texts as code points, decimal numerals.
--   MsgId            pkg/msgid/msgid.go, the message ids.
--   Chunk            pkg/chunk/chunk.go: `budget` is Budget, `guest_budget` GuestBudget,
--                    `send_with_retry` sendWithRetry, `send` Sender.Send. Chunk/Budget, Chunk/Retry
--                    and Chunk/Split hold the proofs.
--   Server/Segments  ChunkSegment and ClaimSegment of pkg/server/types.go.
--   Server/ChunkManager  pkg/server/manager.go, each method under its name; Bounds, Memory, Poison, Opening,
--                    Parts and Outgoing below it hold the proofs.
--   Server/HandleChunk  HandleChunk, HandleAck, SendAckOrChunk and registerAckPullChunk of
--                    pkg/server/handlers.go; Parts, Step, Exact, Transfer, Delivery, Memory, Refused
--                    and Refusals hold the proofs.
--   Server/RefCache  pkg/server/refcache.go and the lookup of refarg.go.
--   Server/SystemHandler  the other handlers of pkg/server/handlers.go, under their names; Cycles runs any
--                    sequence of calls, Ended treats the end of a calculation.
--   Rtd              pkg/rtd/manager.go: the maps, the connect cancellation and the send gate, with
--                    proofs in Topics, Connects and Gate. Rtd/Sends: Publish, SendUpdate and
--                    SendErrorUpdate, and in Sends/OnceGrid SendOnceGrid. Rtd/RunOnce:
--                    pkg/rtd/runonce.go, with a recording manager in Recording and the proofs in Order.
--   Server/AsyncFlush  pkg/server/async_batcher.go: `flush_async_batch` is FlushAsyncBatch, `flush_bounded`
--                    flushAsyncBatchBounded with flushOversizedAsyncBatch; proofs in Answers and Ladder.
--   Server/AsyncBatcher  pkg/server/batcher.go, as a step relation over what callers, the worker and Stop
--                    do; Order and Shutdown hold the proofs.
--   Server/CommandBatcher  pkg/server/command_batcher.go and command_flush.go; Effect, Flushed, Buffers, View
--                    and Schedules lead to Replay, which relates the commands sent to the calls made; Sizes
--                    counts their rectangles.
--   Server/Lifecycle  pkg/server/lifecycle.go, the teardown.
--   Server/JobPool   pkg/server/jobpool.go, as a step relation.
--   Algo/GreedyMesh  pkg/algo/greedy_mesh.go; proofs in Growth, Marks and Partition.
--   Config           internal/config/config.go, with the word lists in Config/Words and Config/ExcelNames
--                    (excel_names.go). `validate` is Validate; Config/Names, Functions, Checks and
--                    Commands hold its checks under their names. Config/Defaults: `apply_defaults` is
--                    ApplyDefaults, with proofs in Modes, Kept, Ribbon and Whole. Config/Valid describes
--                    the accepted configurations without the order of the checks, and its children prove
--                    that the checks accept exactly those.
--   Generator        internal/generator: Generator/Types is types.go, Generator/FuncMap and
--                    Generator/Literals are funcmap.go, whose closures have their names in the function
--                    map. Literals/Decode is a decoder of C++ literals, of which the sources have none.
--   Doctor           the versions of cmd/doctor.go: `parse_version` is parseVersion, `compare_versions`
--                    compareVersions; proofs in Order and Printed.
--   Ribbon           internal/ribbon/ribbon.go: `generate_xml` is GenerateXML and `to_cpp_raw_literal`
--                    ToCppRawLiteral, with an XML reader of attributes in Values, a C++
--                    reader of the literal in RoundTrip, and the literal's text in Literal; Ribbon/Raw has
--                    ValidateRawXML, and Ribbon/Images has Images, with proofs in Steps and Embedded.
--   Generate         rtdWithoutComAddInWarning of cmd/generate.go.
--   The modules named Tests and Runs hold concrete runs.
--
-- State. A method on a shared object is a function from the old state to the new one, its result and
-- what it calls; a method that holds a mutex throughout is one step. The clock is an argument. Maps
-- are association lists with distinct keys, and the order in which Go ranges over a map is that of the
-- list.
--
-- Parameters. The shared-memory transport and the FlatBuffers encoding are not part of this
-- repository's Go code: a transport is a function over any state and any error, and a frame or an
-- update is the record of its fields. The transfer ids that a call draws are arguments.
--
-- Of the configuration, what Unicode says beyond ASCII is a record of tables, time.ParseDuration is a
-- function that gives the nanoseconds or nothing, and uuid.NewSHA1 is a function on texts. A text is
-- the list of its code points, and the regular expression for class ids is written out. Of the
-- ribbon, the cleaned path of an image, the content of a file, and the tokens that encoding/xml reads in
-- it are functions on texts.
--
-- Integers. Lengths and sizes are natural numbers, with the conversions to uint32 written out as
-- remainders; the counters of uint64 and int64 wrap the same way. `-` on natural numbers stops at 0,
-- and where the source subtracts, the difference is not negative or a comment says what replaces it.
--
-- Fuel. The split loop runs on as much fuel as the payload has bytes, which is enough since each round
-- sends at least one byte. The retry ladder recurses on the rounds that are left. The flush runs on
-- one more than the batch's length, which halving uses up at most. A rectangle grows on one more than
-- the largest coordinate, beyond which no cell lies, so that its loops stop before the fuel is used
-- up. The loop that cuts rectangles into commands runs on their number, of which each round takes at
-- least one.
--
-- The decimal digits of strconv are produced with more fuel than the number, of which a tenth is left
-- after each round; Prelude/Decimal proves that they read back. The same holds of the hex digits in the
-- ribbon's character references.
--
-- Not modelled: the interleaving of two HandleChunk calls between their two critical sections, the
-- reading of the configuration file, and what is I/O: the execution of the templates, the command
-- line, the platform layer, logging.
pub mod Prelude
pub mod MsgId
pub mod Chunk
pub mod Server
pub mod Rtd
pub mod Algo
pub mod Config
pub mod Generator
pub mod Doctor
pub mod Ribbon
pub mod Generate
