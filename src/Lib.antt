-- ===== src/Lib.antt =====
-- Lilio, an object store that cuts objects into chunks and keeps each chunk on several storage
-- backends.
--
-- The program. The coordinator (pkg/storage/lilio.go) takes objects from a client, cuts them with a
-- ChunkReader (pkg/utils/chunkReader.go), encrypts the chunks of an encrypted bucket
-- (pkg/crypto/encryption.go), places each chunk with a consistent hash ring
-- (pkg/hashing/consistent.go) on backends from a registry (pkg/storage/registry.go), and commits
-- the object by a conditional write of its metadata (pkg/metadata). Reads take the first replica
-- that matches its checksum and repair the corrupt ones that they met; the scrubber
-- (pkg/storage/scrub.go) walks over all objects and restores replicas.
--
-- Correspondence.
--   Prelude        Go's strings, maps, sort and int64 as the program uses them.
--   Paging         ListOptions, ListResult and paginate (pkg/metadata/interface.go, paging.go);
--                  Paging/Walk is a client that asks for one page after another.
--   Metadata       the data types, errors and interface of pkg/metadata; Metadata/Memory is
--                  memory.go, with one function for each method, on a record of its two maps,
--                  Metadata/Etcd etcd.go, and Metadata/Local local.go, with the methods on objects
--                  in Local/Objects. Metadata/Codec stands for the JSON of the last two.
--   Storage        pkg/storage/interface.go and CalculateChecksum of node.go.
--   Registry       pkg/storage/registry.go.
--   Ring           pkg/hashing/consistent.go; Built in Ring/Placement are the rings that AddNode and
--                  RemoveNode make.
--   Crypto         pkg/crypto/encryption.go.
--   Chunking       pkg/utils/chunkReader.go, and ChunkData of lilio.go.
--   Coordinator    pkg/storage/lilio.go: the record Lilio is its state, and each method is a
--                  function from that state to its result and the state it leaves. Backends holds
--                  placement, health and encryptors, Replicas the reads and deletes of chunks,
--                  Objects PutObject to DeleteObject, and Scrub pkg/storage/scrub.go.
--                  Objects/Old is GetObjectOld, which nothing calls.
--   Files          internal/fsatomic/fsatomic.go on one directory, and
--                  pkg/storage/storage-models/local.go; package os and filepath.Join are the
--                  parameter FileSystem. Files/Backend is the local backend as the coordinator
--                  has it.
--   Chunkd         pkg/chunkd/server.go, which serves chunks from such a backend; Chunkd/Remote is
--                  pkg/storage/storage-models/remote.go, which sends requests to that server.
--   Drive          pkg/storage/storage-models/gdrive.go, on a client of Google Drive.
--   Api            the handlers of pkg/api/server.go, from a request and the coordinator's state to
--                  a reply and the state that they leave; Api/Handlers has one for each route.
--   Config         pkg/config/config.go; Config/Start is what cmd/lilio/server.go makes of its
--                  sections, and Config/Init its initFromConfig, with NewCollector of
--                  pkg/metrics/factory.go. A Host opens stores and backends.
--   Tests          concrete runs.
-- A record Platform gives the coordinator its metadata store, its kind of backend, the hashes and
-- the cipher. What is needed of them is named where it is used: StoreIsLawful, StoreIsVersioned and
-- IsListed of a metadata store (filled in for the in-memory store), IsLawful of a backend (filled
-- in for the local backend on a file system, by Files/Backend), CipherIsLawful, ReaderIsLawful,
-- FilesAreLawful of a file system, TreeIsLawful of a tree of directories, CodecIsLawful of JSON,
-- DriveIsLawful of the Drive client, and EtcdIsLawful of the etcd client. A Network decides for
-- each request of a remote backend whether it arrives and whether its reply does. TextFormat and
-- TextTools are Go's functions on texts that the API and the configuration call. Objects/Turns has
-- the steps of other requests that may come between the calls of one PutObject: stores of chunks,
-- commits, reads, scrubs, unlocks and changes of the backends, and deletes and changes of buckets
-- that keep the revision of the key.
--
-- Backends. IsLawful speaks of the chunk IDs that pass a test, and so do the theorems that ask it
-- of a backend. The test for the local backend, in Files/Backend, takes the names of files of its
-- directory other than temporary ones and the one that Health writes. IsLawful is too strong for a
-- remote backend, whose store may be done although its reply is lost, and for the Drive backend,
-- which skips the store of a chunk that it knows: these have theorems of their own. The
-- coordinator's model has the answers of Info, Health, RetrieveChunk, HasChunk, ListChunks and
-- Stats; that a remote backend goes offline or online with each of these calls, and that Health of
-- the local one writes a file, is in the backends' modules.
--
-- Choices. What is asked of IsBucketEncrypted and GetBucketEncryption is read from GetBucket. A
-- write returns the state beside its result; an error is a value of LilioError or MetaError, or
-- none where only its presence matters. Random bytes, times and the answers of a context are
-- arguments. Texts are lists of bytes. Sizes, and the priorities of backends that were opened, are
-- natural numbers, and a revision is an integer that wraps as an int64. The writes of one chunk,
-- which the source starts together, run one after another, and read repair runs at the end of the
-- read that starts it. The etcd client reports a failed call and a reply that was lost alike. The
-- names of a local store's buckets are names of directories. A URL carries a chunk ID unchanged,
-- where the routes of the chunk server take it. The API calls a read begun once it has written a
-- byte, or a Write has failed; a stored chunk is taken not to be empty there. A chunk size that is
-- negative, which no test of the configuration refuses, is taken as 0. RunPeriodicScrub is its loop
-- over what it receives, a tick or the end.
--
-- Fuel. NextChunk's loop runs once for each answer of the reader, and the loop over chunks once for
-- each chunk. The loop of GetNodes has one turn of the ring as fuel, since later turns meet no new
-- node. The pages that Scrub reads of a bucket are counted by its fuel, and out_of_fuel says that
-- there were more; more fuel than a bucket has keys is enough. Binary search has the length of its
-- range.
--
-- Not modelled: the authorization of the Google Drive backend, metrics, the command line, the web
-- page and the choice of a metadata store in pkg/metadata/factory.go, which are calls of other
-- libraries, output and glue around this core; reading and writing the configuration's file;
-- logging; the times in reports; the times that a context allows. pkg/metadata/buckets.go is
-- commented out in the source.
pub mod Prelude
pub mod Paging
pub mod Metadata
pub mod Storage
pub mod Registry
pub mod Files
pub mod Ring
pub mod Crypto
pub mod Drive
pub mod Api
pub mod Chunkd
pub mod Config
pub mod Chunking
pub mod Coordinator
pub mod Tests
