-- ===== src/Lib.antt =====
-- cloudy-neigh: models and proofs.
--
-- The program is a store of vectors over an object store. A tenant's documents are written through a
-- log of batches in the object store, flushed into segments, and searched in memory.
--
--   ObjectStore   objectstore/objectstore.go, objectstore/mem.go and the generation strings of
--                 objectstore/local.go. `MemStore` is the state behind the mutex, and `get`, `put`,
--                 `delete`, `list`, `read_range`, `stat` and `exists` are the methods, each one step.
--                 ObjectStore.World is the store as its clients see it: between two calls of a client
--                 other clients write, and a call may fail, or be made and lose its answer. What
--                 happens at each call is a schedule, behind whose end nobody interferes.
--                 ObjectStore.Document is the loop of reading a document and writing it back on the
--                 condition of its generation, which the package namespace writes out several times.
--   RecordIo      recordio/: `compute_masked_crc`, the frames, the writer over `bufio.Writer`, and the
--                 scanner (`scan`, `skip`) over the bytes that are still to come.
--   LogStream     logstream/log.go: keys (`segment_key`, `parse_seq`, `valid_prefix`), the search for
--                 the head (`head`, `jump`), `append` and `read` over the world.
--   Namespace     namespace/: names and keys (`validate_name`, `path_of` and the keys of a scope, over
--                 path.Join of the standard library in Namespace.Paths),
--                 and the catalogs of namespaces, branches and tenants over the loop of ObjectStore.Document:
--                 `create_namespace`, `delete_namespace`, `lookup_namespace` with its cache,
--                 `update_branches`, `add_tenant`. Namespace.Registry has the stores by
--                 tenant: `new_registry` and `store`.
--   Manifest      manifest/manifest.go: `read` and `write` of a branch's manifest.
--   Segment       segment/: `write` and `next`, and the bytes of a segment as the flusher writes them.
--   Ingest        ingest/ingester.go in Ingest.Client: `upsert`, `delete_ids`, `fork_branch`, and the log
--                 of a namespace (`get_or_create_log`). ingest/flusher.go in Ingest.Flush (a batch of
--                 the log: `process_records`, `flush_branch`) and Ingest.Stream (`init_checkpoints`, a
--                 round of `Run`, `shutdown_flush`, the table of loops). Ingest.Messages holds the
--                 messages of the log, and their codecs in one record.
--   Vector        vector/format.go: `fp16_from_float32`, `encode_fp16` and `fp16_to_float32` on bits.
--   Query         query/table.go: `upsert`, `upsert_record`, `delete` and `get` of a table in columns.
--                 query/loader.go in Query.Loader: `sync` and `load_segment`.
--                 query/engine.go in Query.Engine: `sync_once`.
--                 Query.Numbers holds its parameters, the arithmetic of float32 and the kernels.
--   GrpcApi       grpcapi/: the interceptor in GrpcApi.Tenant, the service that writes in GrpcApi.Ingest
--                 (`upsert`, `delete`, `fork`), the service that searches in GrpcApi.Query, and their
--                 status codes in GrpcApi.Status.
--   Prelude       shared types (errors, results, association lists), tests and list lemmas.
--   Examples      the theorems at concrete inputs.
--
-- LogStream uses RecordIo for the bytes of a batch and ObjectStore.World for every call of the store;
-- the keys of a log stand under the prefix that Namespace gives to a scope. Ingest.Client appends
-- marshalled mutations to a log; Ingest.Flush turns a batch of them into a segment, which Manifest's
-- document takes up by the loop of ObjectStore.Document. Query keeps the halves of Vector in a column.
-- GrpcApi calls an ingester by an interface, which `client_ops` fills with Ingest.Client.
--
-- Numbers are natural numbers. The offsets and lengths of `read_range` are int64 given by their
-- bits, and a sum of machine words is written with its wrap-around. A float32 is its bits. Bytes
-- are numbers, and that they are below 256 is a hypothesis where it matters. An error wrapped with
-- `%w` is the error itself.
--
-- Loops that the source does not bound run on fuel. The scanner's loop has one more than the bytes
-- that are left, and a frame takes sixteen. The loops of `jump` have 65 and 64: a step doubles at
-- most 64 times, and a range of uint64 is halved at most 64 times. The loop over the mutations of a
-- segment has one more than its bytes. The loop of `append` has two more than the events of the
-- schedule, and the loop of an update of a document has one more. The drain of a log at shutdown
-- takes its fuel as an argument: every batch that others append makes it longer.
--
-- Not modelled: the stores in files and in the cloud, vector kernels, the search in a table, the
-- queries of the engine, the programs, the loop of the flusher that starts and awaits the loops of
-- the namespaces, log lines and measured times, and two goroutines that use one `Log` at once. The
-- codec of a message (JSON, protocol buffers) is a parameter: two functions that may refuse. So is
-- SHA-256.
pub mod Prelude
pub mod ObjectStore
pub mod RecordIo
pub mod LogStream
pub mod Namespace
pub mod Manifest
pub mod Segment
pub mod Vector
pub mod Query
pub mod Ingest
pub mod GrpcApi
pub mod Examples
