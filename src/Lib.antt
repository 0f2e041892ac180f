-- ===== src/Lib.antt =====
-- tgnas keeps the objects of an S3 and WebDAV service as files of a Telegram chat. This library
-- models its Go code and proves what it promises.
--
-- Parts:
--   Common: shared names, tests on numbers, lists, texts (Go strings are lists of bytes), results.
--   Golang: what the code uses of Go itself: int64 with its wrap-around (Int64), strings (Strings),
--   decimal numbers (Strconv), Split, Join and Fields (Splitting), sort (Sorting).
--   Metadata (metadata/): Types has the structs of metadata/types.go and the rows of the tables; Sql
--   is code over database/sql, with a schedule of statements that the engine refuses; Table is what a
--   statement does to rows under a PRIMARY KEY; Like is the LIKE operator and
--   escapeSQLiteLikePattern; Statements has the SQL statements, and Objects, Prefixes, Buckets and
--   Links the methods of SQLiteStore; Operations collects the writing methods.
--   Store (store/): Types has the errors of store/types.go; Range is store/range.go: ParseRange and
--   SelectChunksForRange, and the copy loop of GetObject; UploadStrategy is store/upload_strategy.go;
--   Objects has PutObject, GetObject, HeadObject and DeleteObject of store/store.go, Objects/Streams
--   the goroutine of GetObject with downloads that fail; Buckets has NewObjectStore and DeleteBucket;
--   Listing has ListObjects and advanceContinuationPastPrefix, Listing/Entry its loop over a page;
--   Multipart has CreateMultipartUpload and AbortMultipartUpload, Multipart/Handlers UploadPart and
--   CompleteMultipartUpload, Multipart/Failing what they leave, Multipart/Sessions their steps in any
--   interleaving; Locks is store/locks.go, the mutexes in a heap and the goroutines in any
--   interleaving.
--   S3Api (internal/s3api/): Encoding has the encodings of sigv4.go, SigV4 the parsers of an
--   authorization, SigV4/Canonical the canonical request, SigV4/Verify SigV4Verifier.Verify, and
--   SigV4/Signing the signature as Amazon describes it for clients.
--   Dav (internal/dav/): Paths is parsePath and its kin, Steps how the code asks the metadata store,
--   FileSystem has Mkdir, RemoveAll and Stat of internal/dav/fs.go, Directories OpenFile, the children
--   of a collection and Readdir; CopyMove has handleCopyMove and Serving ServeHTTP of
--   internal/dav/handler.go.
--   Web (internal/web/): ShortLink is handleDirectLink of internal/web/shortlink.go.
--
-- Interaction: the object store sends a body to Telegram and writes the object's row and its chunks
-- to the metadata store. For a read it takes them from there, selects the chunks that a range
-- touches, downloads each chunk's file and copies the wanted part of it. Multipart uploads stay in
-- memory, in `ObjectStore`, until CompleteMultipartUpload writes them to the metadata store as one
-- object. A session of the metadata store is a field of `ObjectStore`. A short link is a row of the
-- metadata store; its handler reads the object by way of the object store and counts the click. The
-- WebDAV server asks the metadata store for all but the bytes of files.
--
-- Bounds and fuel: sizes and offsets are int64 with wrap-around. `itoa n` makes at most n + 1 rounds,
-- as each round divides by ten. The two loops of ListObjects take one round more than the table has
-- objects: every round but the last passes an object; so does the loop of ListAllObjects. A reader of
-- a directory asks at most once more than it has children. All other loops run over lists. At most
-- 1000 multipart uploads are kept, as maxMultipartUploads says.
--
-- SQL is source text of the repository; its statements are translated to what they do to lists of
-- rows, by SQLite's documented meaning (BINARY collation, LIKE that ignores the case of ASCII
-- letters, a violated PRIMARY KEY refuses the statement). The engine's own failures are the
-- schedule of a session.
--
-- Parameters: MD5, SHA-256, random bytes, the clock, and Telegram: what it answers to an upload, and
-- `content`, the bytes of a file by its id, or a reader of it that may fail. SigV4 takes SHA-256,
-- HMAC-SHA256 and what it calls of net/http and time from a record, `Libraries`, and a request as what
-- net/http and net/url show of it. So does the WebDAV server; webdav.Handler of golang.org/x/net is a
-- field of `Handler` there.
--
-- Not modelled: the semaphores and the cancelling of requests, the mutexes but for those of
-- store/locks.go (elsewhere a critical section is one step), logging but for orphaned files, captions,
-- and the parts around the store: the Telegram client, the handlers of the S3 server, the bytes of
-- files in the WebDAV server, the rest of the web server, configuration and the command line, which
-- are mostly calls of libraries.
pub mod Common
pub mod Golang
pub mod Store
pub mod Metadata
pub mod S3Api
pub mod Dav
pub mod Web
