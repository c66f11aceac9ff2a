-- ===== src/Lib.antt =====
-- Verification of the music-online-go server.
--
-- The server keeps a library of music files behind an HTTP interface. Seven of its parts are
-- modelled here: the queue of analysis jobs, users with their login sessions, playlists, the queue
-- of library scans, access to media, the validation of uploads, and the checks that untrusted
-- metadata passes before a tag library reads it. Handlers call services, services call
-- repositories, and repositories send statements to one database, which several server processes
-- share.
--
-- Prelude passes library names on and adds Boolean tests on the native numbers (Prelude/Tests),
-- lists measured by them (Prelude/Lists) and int64 arithmetic on bit patterns (Prelude/Words).
--
-- Database models what the repositories ask of gorm and of the driver. A table is the list of its
-- rows (Database/Table); a method is a function from a connection to a result and a connection
-- (Database/Session). The connection says of every statement still to come whether the driver
-- refuses it, so each theorem holds for all patterns of failure; a transaction that fails, or whose
-- commit is refused, brings the old tables back (Database/Session/Rollback). The sentinel errors of
-- the Go packages are constructors of one type (Database/Errors); texts of errors are not modelled.
--
-- Analysis models internal/domain/music_analysis.go (Analysis/Job),
-- internal/repository/music_analysis_repository.go (Analysis/Queue: Enqueue, ClaimNext, FindJob,
-- Heartbeat, Complete, RequestCancellation, RecoverExpired, MarkSupersededAudio) and, of
-- internal/service/music_analysis_service.go, what a worker makes of an attempt and the jobs that
-- it enqueues (Analysis/Attempt). FindJob preloads the analysis of a job by a second statement,
-- whose rows are not modelled. Analysis/Queue/Steps is the state machine of one row as a step
-- relation; Moves shows that each operation moves rows by such steps, a completion under the
-- premise that a retry has an attempt left, and Runs composes the operations of any processes, with
-- new jobs and completions restricted as its relation says. Attempt/Service is the service on top
-- of it, with the copies that workers hold; Attempt/Owed and Attempt/Runs show that what the
-- service hands to the repository satisfies those restrictions. Sound, Fencing, Claims and Replies
-- build on it. Retries are delayed by a loop on int64 durations that Analysis/Attempt/Backoff
-- compares with a power of two.
--
-- Accounts models internal/domain/user.go and session.go (Accounts/Store),
-- internal/repository/session_repository.go (Accounts/Sessions), user_repository.go and
-- user_repository_admin.go (Accounts/Users), internal/service/user_service.go and
-- user_service_admin.go (Accounts/Tokens, Login and Profile), internal/pkg/password/password.go
-- (Accounts/Password) and internal/middleware/auth.go (Accounts/Guard). SHA-256, bcrypt, one-time
-- codes, random bytes and the signature of access tokens are parameters. Accounts/Runs lists the
-- operations and the states that they reach; Accounts/Ended is the invariant of a session that has
-- ended; Refresh, Rotation, Reuse and Disabled are about what sessions and tokens still allow, and
-- Accounts/Tokens/Parsing about reading a token back, Accounts/Guard/Admission about who is let
-- through.
--
-- Metadata models, of internal/mediametadata/reader.go, the checks before a tag is read: picture
-- blocks (Metadata/Picture), Vorbis comment blocks (Metadata/Comments), the walk over the metadata
-- blocks of a FLAC file (Metadata/Flac), Ogg pages (Metadata/Ogg), the search for an MP4 box
-- (Metadata/Boxes), ID3v2 and APEv2 tags and the check that calls all of these (Metadata/Headers),
-- and the durations of FLAC and MP4 files (Metadata/Duration). A file is a function that may refuse
-- any read; a stream is read from its start and may end or fail anywhere. Base64, trimming and case
-- folding are parameters. Each check is compared with the layout of its format written out
-- (Metadata/Picture/Layout, Comments/Parsing, Flac/Chain, Boxes/Bounds, Headers/Limits);
-- Ogg/Packets says what pages and packets of a stream are, and Ogg/Segments and Ogg/Comments follow
-- the two loops over them.
--
-- Playlists models internal/domain/playlist.go (Playlists/Store),
-- internal/repository/playlist_repository.go (Playlists/Repository, with sameUniqueIDs in
-- Playlists/Ids) and internal/service/playlist_service.go (Playlists/Service, with the names in
-- Playlists/Names). Playlists/Edits lists the edits of one playlist and says what a property of the
-- tables needs to survive them; Ownership and Limits are two such properties. Placement is what the
-- loops that number items do without their statements, Listing when a listing is exactly a list of
-- music; Reorder, Removal and Additions build on both.
--
-- Scans models, of internal/domain/media_library.go and
-- internal/repository/media_library_repository.go, the queue of scan jobs (Scans/Queue) and the
-- roots with their states (Scans/Roots). Queue/Runs lists the operations on jobs and says what a
-- property of one row needs to survive them, Queue/Fencing is about lost leases and requested
-- cancellations.
--
-- Access models internal/pkg/mediatoken/token.go (Access/MediaToken), and the library's middlewares
-- of internal/middleware/access.go with internal/middleware/admin_auth.go (Access/Library), on top
-- of Accounts/Guard. HMAC and base64 are parameters.
--
-- Uploads models internal/service/upload_validation.go (Uploads/Validation): what an uploaded file
-- must look like, with the types and signatures written out as layouts in Validation/Signatures.
-- Lower case and the detection of image types are parameters.
--
-- Bounds and fuel. Go's uint and int64 are natural numbers, but the search for a box, whose sums
-- can overflow, and the delay of a retry, which is doubled, compute with int64 as patterns of 64
-- bits. Times are numbers of nanoseconds from the epoch and are not bounded; a time before the
-- epoch counts as the epoch. The walk over FLAC blocks runs on fuel 1025, one more than the number
-- of blocks that the code allows: each round uses one unit and counts one block. The search for a
-- box runs on fuel above the size of the file, since every box is at least eight bytes long. The
-- digits of a number are written on fuel one above the number, which each digit divides by ten.
--
-- Not modelled: the columns that no modelled operation reads, and rows marked as deleted, which the
-- user table never has; deleting a user; the lists of users and of analysis jobs; the artifact
-- cache and metrics of the analysis queue; the goroutines of its workers; the walk of the library
-- scanner and the rows of its files. The processing of uploads, browsing, presets and configuration
-- are not modelled either. Handlers, routing, logging, database set-up and the web client hold no
-- logic that is modelled.
mod Prelude
pub mod Database
pub mod Analysis
pub mod Metadata
pub mod Accounts
pub mod Playlists
pub mod Scans
pub mod Access
pub mod Uploads
