-- ===== src/Lib.antt =====
-- The service stores statistical cubes. A client posts a dataset as a JSON document: dimensions
-- with categories, and numeric, text and status values by cell index. The service checks it, puts
-- dimensions and categories into the order of their normalized keys, stores the cells by their
-- index in that order, and returns them whole or as a selection.
--
-- A request passes through these parts. The handlers check the method, the token, the media type,
-- the query, the path values and the size of the body; the payload parser decodes the body
-- strictly, checks the structure and the channels and moves the cells into stored order; the store
-- keeps the result; presentation turns what the store returns into a response.
--
-- - Jsonx: internal/jsonx/json.go. `decode_strict` and `validate_value` are DecodeStrict and
--   validateValue over the token stream of encoding/json. Each round of a loop and each call takes
--   fuel; `fuel_for` gives two for each token and one more, since a call that takes no token is
--   followed by one that does.
--
-- - Domain.Model: the records of internal/domain/model.go.
--
-- - Domain.Index: internal/domain/index.go. CheckedProduct, Strides, Coordinates and CellIndex
--   over Go's int64, every sum and product wrapped by `wrap64`. Index.Spec has row-major order in
--   natural numbers.
--
-- - Domain.Normalize: internal/domain/normalize.go. The eight rounds of NormalizeCode are its own
--   bound.
--
-- - Domain.Structure, Domain.Channels, Domain.Remap, Domain.Payload: internal/domain/payload.go.
--   The dimensions of a request, its channels, its stored order, and ParseReplacement and
--   ParseSelection as a whole. Domain.Axes says what a cell means apart from any order: its
--   address.
--
-- - Domain.Selection: internal/domain/selection.go, ResolveSelection. A slice index out of range,
--   which panics in Go, is an error of the model.
--
-- - Config: internal/config/config.go, Load and Validate.
--
-- - Presentation: internal/presentation/presentation.go, the response in both formats and the
--   shared status.
--
-- - Postgres: internal/store/postgres.go on the tables of
--   internal/migrations/sql/001_initial.sql, each a list of rows. Statements has what the code
--   relies on outside it, as a record: any statement may fail, a violated constraint being one
--   reason, and identity values may leave gaps. Tables has the selections, Advisory the lock's key,
--   Replace and Delete the transactions, Reads and Query the reads. Transactions run one after
--   another, as the lock on a dataset makes those that change it. Integrity and Kept are about the
--   references between tables; Stages, Opening, Loading and Stored about what a replacement writes;
--   RoundTrip and Query.Correct about what is read after it, Query.Batches about the loop over the
--   batches; Deletion, Gone and Others about what a deletion leaves, Isolation about the datasets
--   that a replacement leaves alone, Total about the ways a replacement ends, Posted about a body
--   from its parsing to its reading. The loop over the batches has as much fuel as there are
--   indices, and every round takes one at least.
--
-- - Migrations: internal/migrations/migrations.go and downgrade.go. A run returns its result, the
--   database that it leaves and the events of its session; Migrations.Start is Open of
--   internal/store/postgres.go, Migrations.Protocol is about the events, and Migrations.Laws about a
--   run and the start after it.
--
-- - Server: internal/httpapi/server.go on the interface of internal/store/store.go. A handler
--   returns the reply, the state of the database and the calls that it made. Server.Tokens says
--   what a request with a token is.
--
-- A Go int has 64 bits here. A map is an association list, and a range over it follows the list;
-- the theorems hold for every list, so for every order. A float64 is its bit pattern. Sorting is
-- by insertion; the keys that the code sorts by are distinct. Errors are constructors, without the
-- message texts. Parameters are the Unicode tables, the JSON decoder, number parsing of floats and
-- durations, SHA-256, media types, the store behind its interface where the handlers call it,
-- PostgreSQL as its statements fail, and the migrator of tern.
--
-- Not modelled: the entry points in cmd, the embedded documentation, and the acceptance driver in
-- tools. Of the server: messages, logging, timing, panic recovery and the multiplexer.
pub mod Prelude
pub mod Jsonx
pub mod Domain
pub mod Config
pub mod Presentation
pub mod Server
pub mod Postgres
pub mod Migrations
pub mod Tests
