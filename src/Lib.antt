-- ===== src/Lib.antt =====
-- RIP-Server is a print server: it accepts documents over REST, IPP and MCP, renders them with an
-- external engine, keeps the rendered pages as artifacts and delivers them to printers. This
-- library models the parts of its Rust code that decide what is accepted and what is delivered.
--
-- - Core: crates/rip-core. Core/State is `JobState::transition` of src/lib.rs, Core/Document the
--   detection of a document's format, `Manifest::validate` and `RasterLayout::byte_len` of the same
--   file, Core/Pages the selections of src/pages.rs (Strict is `PageRanges`, Ipp is
--   `IppPageRanges`, Render is `RenderPages`), and Core/Mapping `source_mapping` and
--   `delivery_indices` of that file. Core/Ticket is the `JobTicket` of src/print.rs, with `build`,
--   `published`, `raster` and `validate_raster`, and Core/Pages/Label the text of a selection.
-- - Ipp: crates/rip-ipp/src/lib.rs. Ipp/Wire is `Request::parse` with `take` and `take_u16`,
--   Ipp/Response the writer `Response`, Ipp/Access the lookups of an attribute (`one`, `text`,
--   `integer`, `enumeration`, `resolution_dpi`, `page_ranges`, `wants`), and Ipp/Operation, with
--   its child Validate, the whole of `validate_operation`.
-- - Interpreter: crates/rip-interpreter/src/page_stream.rs, the reader of the pages that an engine
--   writes to its standard output, with the output directory and the reports of progress.
--   Interpreter itself has the bytes and the files, Interpreter/PageStream the loop.
-- - Raster: crates/rip-raster/src/lib.rs. Raster itself has the duplex transforms and the encoder of the
--   rows of a page (the last loop of `page`), Raster/Inspect `inspect_layout`, and Raster/Pixels a
--   reader of the rows that the theorems compare the encoder with.
-- - Storage: crates/rip-storage. Storage/Delivery is src/delivery.rs with `store` of
--   src/delivery_receipt.rs: Table has the rows and `update_delivery`, Operations and Device one
--   function for each operation on a delivery, under a shorter name (`claim` is `claim_delivery`,
--   `finish` is `finish_delivery`, `observe_device` is `observe_delivery_device_progress`,
--   `recover_sends` is `recover_delivery_sends`), Enqueue `enqueue_approved_delivery`. Core/Print has
--   the vocabulary of crates/rip-core/src/print.rs that a ticket uses. Storage/Jobs is the queue of jobs in
--   src/lib.rs: Intake has `insert_with_preflight`, Choice `next_queued_at`, Work the claim, the
--   leases, their recovery and `transition_recorded`, Finish `complete_with_artifacts` and `delete`.
--   Storage/Budget is src/budget.rs. Storage/Observer is src/printer_observer.rs, where `claim` and `finish`
--   are `claim_printer_observer_at` and `finish_printer_observer_at`. Storage/Color is src/color.rs:
--   `create`, `update` and `finish_cleanup` are `create_color`, `update_color` and
--   `finish_color_cleanup`. Storage/Approvals is src/operation_approvals.rs, with the operations
--   `issue`, `consume` and `revoke`. Storage/Retention is src/retention.rs with `claim_retention` of
--   src/maintenance.rs, `extend` being `extend_artifact_retention`. Storage/Rows has the tables with one row for each id.
-- - Digest: crates/rip-digest/src/lib.rs, on JSON values. `check` is the function inside `canonical`,
--   `strict`, `visit_seq` and `visit_map` are the visitor of `Strict`.
-- - Jobs: crates/rip-jobs/src/lib.rs, `prepare_staged`: `read_all` is its loop, `accept` what follows the
--   loop up to the renaming of the file. Jobs/Prefix has the loop on all the bytes, Jobs/Publish the
--   ticket of a sealed job, Jobs/Whole the whole.
-- - Server: services/jrip-server. Server/Authorization is src/authorization.rs: `parse`, `equal`, `access_at` and
--   `authorize`, with the text of the request's header as an argument; Compare, Policy and Grant have the
--   theorems.
-- - RateLimit: services/jrip-mcp/src/rate_limit.rs, the token buckets in front of the MCP service.
-- - Common: the names, lists, results and byte strings that the parts share. Common/Bytes/Utf8 is
--   the test that `std::str::from_utf8` makes.
-- - Tests: runs at concrete inputs, and one example for each result.
--
-- The parts meet in the page selections: `Request::page_ranges` of the IPP codec builds one with
-- `IppPageRanges::new`, a manifest carries it, and `source_mapping` and `delivery_indices` read it
-- when the artifacts of a job are stored and delivered. A document that arrives is detected, checked
-- against its manifest and given a ticket by Jobs, with the definitions of Core. Approvals
-- compare bindings by their digest from Digest. The page stream expects as many pages as the
-- selection has in the source.
--
-- How the code is read. A number of the source is a native natural number; where the source's type
-- can wrap around, stop at its largest value or fail on overflow, the definition writes that out
-- (`% 2 ^ 32`, `saturate`, `checked_mul`). A byte string is a list of numbers and a `String` its
-- UTF-8 bytes, except that the characters of a manifest's name are listed by their code points. An `i32` is kept
-- as its 32 bits, and compared by sign where the source compares it.
-- The source reads a message at an offset; the model holds the offset with the bytes that are left.
-- A `?` or an early return is a step of a do block over `Result`.
--
-- The database. A table is a list of rows, a transaction a function from the tables to the tables
-- after its commit or to an error, which leaves them as they were. SQLite commits one transaction at a
-- time. An operation that first reads a delivery outside of its transaction takes the tables that
-- it read as an argument of their own, so that a run may put any operations between the read and
-- the commit. The clock is an argument; where one operation reads it more than once, the readings are
-- two arguments, except for the insertion of a delivery, the colour attempts and the approvals, which take
-- one. The claim of an observer makes three statements outside of any transaction: the tables that the
-- first one reads, those that the second one writes and what other connections do before the third are
-- arguments. An id is a number, a
-- string the list of its code points. A job's revision, which counts its changes, has no bound; a
-- delivery's has the bound that the code checks. The id of a deleted job is taken never to be used
-- again, so that runs of operations on the jobs have no deletion.
--
-- Fuel. The loop of `Request::parse` reads at least the tag in each round, so that one round more
-- than there are bytes behind the header is enough. The loop of the binary search makes fewer
-- rounds than the list has elements. A round of the page stream reads 12 bytes or more, and its
-- copy of a page makes no more rounds than the page has bytes. The encoder and the inspector of a
-- raster take a byte, a pixel or a row in each round. A number of 32 bits has ten decimal digits at most.
--
-- Parameters. The grammar of JSON, the text of a header, canonical JSON, SHA-256, the text of an id and the parser of references
-- are libraries of others. What a theorem relies on is a hypothesis: that the hash of pieces is the hash of the
-- whole, that the text of a hash is a digest, that the text of an id is 36 hexadecimal digits and hyphens, and
-- that bindings with one digest whose identities are texts name the same identity.
--
-- What is not modelled: the derived and hand-written serde code, which ends in the modelled
-- constructors; the mutex around the buckets, held
-- through a whole `admit`, so that requests are taken one after the other; reading limits from
-- the environment; read and write errors of a device; the physical contract of a delivery, a JSON
-- value, and the digests and the signatures of receipts; how a ticket is stored with its job, and the pipeline that a job may come
-- with; the lock on a directory and its other errors; the queries that only list rows; the other tables of the repository; the decoding
-- of TIFF files and the header of a raster page that is written; rendering, colour, the printer adapters and the services' HTTP layers.
pub mod Common
pub mod Core
pub mod Interpreter
pub mod RateLimit
pub mod Storage
pub mod Raster
pub mod Ipp
pub mod Digest
pub mod Jobs
pub mod Server
pub mod Tests
