-- ===== src/Lib.antt =====
-- Verification of toolbox, a registry and runtime for typed tools: the names of tools and versions, the
-- virtual file system that a sandbox talks to, the packing, loading and resolution of packages, and the
-- toolsets that are made of them.
--
-- The parts, and the files that model them:
--
-- - tool/fqn.go: Tool. Tool/Pattern has the three regular expressions as matchers, Tool/Fqn the
--   parsers (parse_tool_fqn is ParseToolFQN, and so on), the printers and the getters of
--   pseudo-versions. Tool/Pieces, Tool/RoundTrip and Tool/Pseudo hold the proofs.
-- - vfs/memfs.go: Vfs/Path (path.Clean and path.Dir on rooted paths), Vfs/MemFs (the node map and the
--   operations on paths) and Vfs/Handle (Open, Read, Write, Seek, SetLen).
-- - vfs/protocol.go and vfs/server.go: Vfs/Error (messages, codes, errResp), Vfs/Server (requests,
--   responses, the handle table and dispatch) and Vfs/Frame (readFrame, writeFrame, handleConn).
--   Proofs: Vfs/Clean, Vfs/Tree, Vfs/Preserve, Vfs/Steps, Vfs/Runs, Vfs/Atomic, Vfs/Codes,
--   Vfs/Contents, Vfs/Wire and Vfs/Faults.
-- - registry/version_list.go: Registry/Semver (the order of versions) and
--   Registry/Listing (the lists of tags); proofs in Registry/Order.
-- - registry/source.go: Registry/Source (metadata and the GitHub source); registry/git_source.go:
--   Registry/GitSource; registry/cache.go: Registry/Cache; registry/resolver.go: Registry/Resolver.
--   Proofs: Registry/Integrity, Registry/Fetching, Registry/Released and Registry/Packing.
-- - fetch/headers.go: Fetch/Headers, with proofs in Fetch/Ordered; fetch/request.go: Fetch/Request
--   (normalizeMethod).
-- - tool/tool.go and packaging/: Packaging/Types (packages and tools), Packaging/Paths (package path of
--   Go), Packaging/Names and Packaging/Manifest (internal/manifest), Packaging/FileSystem (io/fs),
--   Packaging/Source and Packaging/Loading (internal/source), Packaging/Archive (the file system in
--   memory), Packaging/Tar, Packaging/Pack and Packaging/Unpack (internal/archive). Proofs:
--   Packaging/Camel, Packaging/Ancestors (the loops over the directories above a file),
--   Packaging/Shown, Packaging/Declared, Packaging/Extract, Packaging/Verified, Packaging/Plain,
--   Packaging/Walked and Packaging/PackLoad.
-- - toolset/: Toolset/Binding (binding.go, cel.go and resolveTools), Toolset/Call (validate.go) and
--   Toolset/View (agentview.go). Proofs: Toolset/Bound, Toolset/Injected and Toolset/Honoured.
-- - toolsetfile/: Toolsetfile/File, Toolsetfile/Load and Toolsetfile/Resolve (toolset_file.go), and
--   Toolsetfile/Lock (toolset_lock.go and toolset_local.go). Proofs: Toolsetfile/Consistent and
--   Toolsetfile/Cached.
-- - invoke/invoke.go: Invoke, with its proof in Invoke/Guarded.
-- - secrets/local.go and secrets/secrets.go: Secrets, with its proofs in Secrets/Kept.
-- - Prelude holds the names that the files share: texts as lists of bytes, association lists for Go's
--   maps, results for `(value, error)`, and integers with the wrap-around of int64.
-- - Tests holds runs of the definitions and instances of the theorems.
--
-- How the parts interact: the resolver calls the sources in their order, validates their metadata and
-- stores what they return in the cache, whose paths come from module and version names. The server
-- decodes a request, calls one method of the file system or of an open handle, and turns an error into a
-- code by looking for phrases in its text. Resolve of a toolset file calls the resolver for each package,
-- with what the lock has for it, and writes the new lock. The cache takes the loading of an archive as a
-- parameter; Packaging/Unpack is its model.
--
-- State: a file system is the map from paths to nodes; a server is a file system, a counter and a
-- table of handles; the resolver and the cache pass a disk (a map from paths to contents) from step to
-- step. Each method holds the file system's lock for its whole run, so a run of several connections
-- is a list of requests in the order in which they took the lock. A panic is `none`, since nothing
-- recovers it.
--
-- Numbers are the native naturals. The int64 of a position or of a length is an integer with its
-- wrap-around written out; a handle's counter is modulo 2 ^ 64. `max_alloc` is the longest slice that
-- `make` can make. Every loop is structural, and the loop of a connection takes the surroundings of each
-- of its turns as a list; only the loops over the directories above a file run on fuel, the length of the
-- name and two more, which is enough for every name that does not begin with a slash, while for the other
-- names no number is enough (Packaging/Ancestors). `endless` is what such a loop gives.
--
-- Parameters: the engines that run a tool, sort.Slice for versions (whose comparison is no strict weak
-- order, so that its documentation leaves the result open), the clock, `%d` of a number, the replies of an
-- HTTP server, the JSON decoders and schemas, SHA-256 in hexadecimal, the parser of RFC 3339, git, MessagePack, age, tar and zstd, globs, the CEL and
-- TypeScript libraries, the singular of a noun, and which paths can be written. Texts are taken to be
-- ASCII where ToLower and EqualFold are used. A Go map is a list; where the code goes through a map, the
-- order of the list stands for the order that Go leaves open.
--
-- Not modelled: sockets, the error that conn.Write can return, operations and seek origins that are negative
-- (the code treats them as unknown), MessagePack, contexts and cancellation, code mode, the JavaScript
-- runtime, the proxy and the commands; and a file of secrets whose JSON is `null`, which leaves the store
-- without a map.
pub mod Prelude
pub mod Tool
pub mod Vfs
pub mod Registry
pub mod Fetch
pub mod Packaging
pub mod Toolset
pub mod Toolsetfile
pub mod Invoke
pub mod Secrets
pub mod Tests
