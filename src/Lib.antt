-- ===== src/Lib.antt =====
-- A model of roadbook's core (Go): how a location history becomes adventure candidates, how those
-- are matched with the decisions that a user took, and how one adventure becomes a list of legs.
--
-- The program parses an export into observations (internal/domain), detects candidates in them
-- (internal/detect), re-associates the candidates of each run with stored decisions, and assembles a
-- confirmed adventure's observations into a journey (internal/journey), which the API serves and on
-- which photos are placed. Behind the API, sessions say who asks, and share links open one adventure of
-- their owner to whoever has the token.
--
-- Which file models which part:
--   Domain      internal/domain/domain.go: Visit, Activity, PathPoint, RawPosition, Observations.
--   Geo         internal/geo/geo.go: HaversineM, PointToPolylineM.
--   Detect      internal/detect: Params (the thresholds of every file), PyPort (pyport.go), Score
--               (score.go), Bases (bases.go), Synth (synth.go), Observed (flatten and
--               rejectOutliers), Spans (findSpans), Home (homeDistM), Match (match.go), Candidates (what
--               Run makes of one span, and topModes) and Run (Run of detect.go). A function keeps its
--               name in snake_case.
--   Journey     internal/journey: Types (the types and methods of journey.go), Select, Teleports,
--               Thin, Legs and Stops (the stages of Assemble), Assemble, Place (place.go), Modes
--               (modes.go) and Summary (summary.go).
--   Timeline    internal/timeline/parse.go: Stream (skipValue and what it reads), Codec (the decoding that
--               the standard library does, an interface), Segments (processSegment, parseLoc and the
--               body of parseRawSignals) and Parse (the loops of Parse and parseRawSignals).
--   Route       internal/route/route.go: the keys of the cache, UnknownKeys and Apply.
--   Photo       internal/photo: Bytes (slices and reads), Jpeg (findEXIFTIFF of exif.go), Tiff (walkIFD
--               and the readers of values of exif.go), Boxes and Items (findBox and exifItemID of
--               heif.go), Meta (photo.go) and Sidecar (sidecar.go). A loop may panic or have no end, which
--               its result says.
--   PhotoSource internal/photosource/photosource.go: Resolve.
--   Store       internal/store: Tables (the rows), Keyed (lookup in a table with a unique column), Users
--               (UpsertOIDCUser, EnsureUser), Sessions (sessions.go), Runs (runs.go), Decisions (decisions.go),
--               Shares (shares.go), Photos (photos.go, and the read of photo_records.go) and Imports
--               (observations.go and the imports of uploads.go), Backup (backup.go and the files of photos.go);
--               Keyed and Rows have the lemmas on tables. An id that a refused insert leaves is given
--               again, where the sequence of the database skips it.
--   Auth        internal/auth/auth.go: tokens, BeginSignIn and CompleteSignIn.
--   Api         internal/api: SignIn (auth.go: the middleware, the callback and the sign-out), Matching
--               (matchedStateFor of server.go), Decide (DecideCandidate and DecideCandidatesBulk of server.go) and
--               Shares (shares.go).
--   Backup      internal/backup/backup.go: Write, and Restore in a child module with its variables in
--               Restore.State.
-- The children of a component prove what it does; Tests holds small runs and each theorem at one input.
--
-- Floats. A float64 is a value of a type that is a parameter, with the operations of the Float
-- interface in Floats; no law is assumed of them unless a theorem names it. Floats.Whole is a choice
-- of the operations for tests.
-- Times. A time.Time is its nanoseconds since the zero Time and the offset of its zone (Times); a
-- Duration has a sign and saturates as the package time does.
-- Maps are association lists, slices are lists, a pointer that may be nil is an Option. Where Go would
-- panic, a function answers none or `panicked`.
-- Fuel. The binary searches and the walk over a JPEG run on one more step than there are elements,
-- which is enough, since each step leaves fewer indices; findBox takes its fuel as an argument. All other
-- loops recur on a list or on a count.
-- sort.SliceStable is a stable insertion sort; sort.Slice is taken as the same, one of the results that
-- its documentation allows.
--
-- The database. Each method of the store is one step on tables that are lists of rows; a statement that
-- the schema refuses leaves them as they are. A failure of the database itself is left out.
--
-- The backup. An archive is the list of its entries and how it ends; tar, gzip, encoding/json and
-- os.WriteFile are parameters. encoding/json may refuse a document, and the round trip assumes of it that
-- it keeps the documents whose texts, times and floats are plain: valid UTF-8, RFC 3339 and finite.
-- Writing a thumbnail may fail and leave a part of it. A failure of the archive's writer is left out.
--
-- NaN. A grid cell with a coordinate that is NaN is a key of a Go map that no lookup finds. Bases models
-- that by the eq of the floats, and the median of the group that is then empty is a panic.
--
-- Not modelled: the sniffers and the rest of the readers of EXIF blocks; ScanFile, which calls them; the
-- reads of observations and deletion in the store; most handlers of the HTTP server and its generated
-- code; the command line; the clients of external services. They are input and output around this core,
-- or stand in packages that the model does not reach yet. time.Date, json.Unmarshal, strings.ToLower and
-- strconv.ParseInt are parameters of Photo and PhotoSource.
pub mod Prelude
pub mod Floats
pub mod Times
pub mod Domain
pub mod Auth
pub mod Backup
pub mod Api
pub mod Geo
pub mod Detect
pub mod Journey
pub mod Photo
pub mod PhotoSource
pub mod Route
pub mod Store
pub mod Timeline
mod Tests
