-- ===== src/Lib.antt =====
-- A verification library for lighttpd (the autothumb fork), a web server in C.
--
-- The server takes requests apart (src/request.c, src/connections.c), cleans the path of the URL
-- (src/buffer.c), asks its modules what to do (src/mod_*.c, through src/plugin.c) and sends what
-- they queue (src/chunk.c, src/http_chunk.c, src/network.c). This library models the parts below;
-- each file opens with a comment that names its code.
--
--   Base          lists, bytes, tests and the lemmas that the parts share
--   Chars         src/buffer.c: the character classes and hex digits
--   UrlDecode     src/buffer.c: `buffer_urldecode_path`, `buffer_urldecode_query` and the texts of
--                 `buffer_append_string_encoded`, with the six tables (UrlDecode/Tables)
--   PathSimplify  src/buffer.c: `buffer_path_simplify`. PathSimplify/Spec is the specification: the
--                 path cut at its slashes, `.` and empty segments skipped, `..` dropping a segment
--   Number        src/buffer.c: `LI_ltostr` and the hex texts
--   Buffer        src/buffer.c, src/buffer.h: the growing buffer, with its region of memory.
--                 Buffer/Prepare has the relations between a buffer and the text it stands for
--   Uri           src/mod_access.c, src/mod_alias.c: what the two handlers decide from a path
--   KeyValue      src/keyvalue.c: the tables of methods, versions and status lines
--   ChunkQueue    src/chunk.c, src/chunk.h: the queue of chunks and its cache of unused chunks
--   HttpChunk     src/http_chunk.c: chunked and plain bodies, written through ChunkQueue
--   SplayTree     src/splaytree.c: splaying, inserting and deleting, with the loop's fuel `count t + 1`:
--                 each round goes on with fewer nodes. Keys are hashes below 2 ^ 31 and sizes fit
--                 an `int`, so no difference and no sum overflows
--   Caseless      src/buffer.c: `buffer_caseless_compare`
--   Array         src/array.c, src/array.h: the array with its sorted index. The search halves a step
--                 that fits 64 bits, so its 65 rounds are enough
--   Request       src/request.c: `http_request_parse`, by its parts: the request line (Line), the
--                 header lines (Headers), the fields (Field, with Split), the host (Host), the last
--                 checks (Finish), and the whole (Parse). The headers go into Array
--   Connection    src/connections.c: taking a request and its body off the read queue (Header, Read),
--                 and the state machine (Machine)
--   CString       `strchr` and `strtoll` of the C library, with 64-bit integers
--   Plugin        src/plugin.c: the calls of the modules, one after the other
--   Response      src/response.c: `http_response_prepare`, from the URI to the file. Response/PathInfo
--                 is the loop that takes parts off the end of the path; it has one round more than the
--                 path has bytes, and each round has a shorter path
--   Cachable      src/etag.c, and `http_response_handle_cachable` of src/http-header-glue.c
--   Range         src/mod_staticfile.c: `http_response_parse_range`. Each round of its loop reads a byte
--                 at least, so that one round more than the header has bytes is enough
--   ResponseHeaders  src/http-header-glue.c: insertion and overwriting of a header of the response.
--   StaticFile    src/mod_staticfile.c: `mod_staticfile_subrequest`, with Cachable, Range and HttpChunk
--   Condition     src/configfile-glue.c: the conditions of the configuration (Condition/Rule) and their
--                 cache, with a recursion as deep as the number of the block
--   Tests         runs on concrete inputs
--
-- How the models stand to the code. A `buffer` with its memory is the record `Buffer` (`ptr` is the
-- whole region, `used` counts the closing zero); the parts that do not touch the region take a buffer
-- as `Option Bytes`, `none` where `used` is 0. A byte is a number below 256, `size_t` and `off_t` are
-- numbers below 2 ^ 64 and wrap as written out, a `long` is an integer of the same range as in the
-- theorems' bounds. Memory that `malloc` or `realloc` adds holds what the parameter `junk` gives, and
-- both succeed. A Buffer operation is `none` where it would write outside its region. Pointers are
-- not NULL. Lengths of texts in the two modules fit an `int`, and their texts hold no zero byte.
-- System calls are noted in the field `effects` of a queue; `mkstemp` is a parameter.
--
-- Loops are recursion on the text or list they walk. The decimal loop has 20 rounds, enough for a
-- number below 10 ^ 20 and so for every `long`; the hex loops have 16 rounds for 64 bits, and the one
-- for the length of a chunk the 8 that the code writes.
--
-- The parser of requests works on its text with `Result`: it goes on, or it returns early with the
-- connection as it is then. Where the code keeps pointers into its copy of the request, the model keeps
-- the texts, except for the host, which is a place among the headers. The state machine takes one
-- `Pass` for each pass of its loop, with what the parser, the modules and the system calls give there;
-- the loop is recursion on the list of passes.
--
-- The preparation of a response works on `Flow`: it goes on, or it returns. The modules are lists of
-- functions of the connection; `stat_cache_get_entry`, `strptime` with `mktime`, `pcre_exec`,
-- `inet_aton` and the name of the socket are parameters. The configuration is taken as merged for the
-- request; the conditions are checked apart from it.
--
-- Not modelled: reading and merging the configuration, the modules but for mod_access, mod_alias and
-- mod_staticfile, and the thumbnails; sockets, processes, image work and logging are calls of other
-- libraries. Array elements that are kept for another use after they are removed are left out. The
-- generated parsers and the vendored lemon and MD5 code stay out.
pub mod Base
pub mod Chars
pub mod UrlDecode
pub mod PathSimplify
pub mod Number
pub mod CString
pub mod Buffer
pub mod Uri
pub mod KeyValue
pub mod ChunkQueue
pub mod HttpChunk
pub mod SplayTree
pub mod Caseless
pub mod Array
pub mod Request
pub mod Connection
pub mod Condition
pub mod Plugin
pub mod ResponseHeaders
pub mod Response
pub mod Cachable
pub mod Range
pub mod StaticFile
pub mod Tests
