-- ===== src/Lib.antt =====
-- A verification library for gcr, GNOME's library for cryptographic user interfaces and credentials.
--
-- The parts modelled are those that take bytes from other programs. EggBuffer is the growable
-- buffer in which the ssh agent packs and unpacks the messages of the agent protocol; the agent reads
-- a request from a client, looks up its operation, changes its set of known keys, relays the request to
-- the real ssh-agent, and sends the answer back. The padding functions serve the decryption of keys,
-- hexadecimal text the printing and reading of fingerprints, and records the output of GnuPG. Keys and
-- certificates are read as tags, lengths and values, and certificates are put in chains. Objects of
-- PKCS#11 modules are described by attributes, which a builder collects. Passwords are kept in blocks of
-- memory that is not paged.
--
--   Shared          numbers, lists, tests on numbers, disjoint bits; the names of the libraries
--   Egg/Buffer      egg/egg-buffer.c and egg/egg-buffer.h. Memory has the record Buffer (EggBuffer), the
--                   allocators and the accesses to memory; Storage the functions from egg_buffer_init
--                   to egg_buffer_append; Numbers and Strings the readers and writers. A definition has
--                   the function's name without the prefix egg_buffer_. Valid has the invariant of
--                   buffers, Writes and NumberWrites what is appended, Reads what is read
--   Egg/Padding     egg/egg-padding.c, without the prefix egg_padding_
--   Egg/Hex         egg/egg-hex.c, without the prefix egg_hex_
--   Egg/Asn1x       egg/egg-asn1x.c: Tlv is the parser of tags, lengths and values and Unparse their
--                   writer, both without the prefix atlv_; Integer and ObjectId are the functions
--                   anode_read_ and anode_write_ of these kinds
--   Egg/Decimal     egg/egg-decimal.c
--   Egg/SecureMemory egg/egg-secure-memory.c: Alloc, Free and Realloc are sec_alloc, sec_free and
--                   sec_realloc on one block, Blocks what callers use with Blocks/Validate, the check
--                   of all blocks, Strings the copies of text; Valid has the invariant of a block, and
--                   Allocations what callers see of it
--   Gcr/Chain       gcr/gcr-certificate-chain.c, without the prefix gcr_certificate_chain_; Build has
--                   perform_build_chain and what calls it
--   Gcr/Record      gcr/gcr-record.c, without the prefixes _gcr_record_ and _gcr_, and its escapes in
--                   Gcr/Record/Escape
--   Gck/Attributes  gck/gck-attributes.c with the values of gck/gck-misc.c, without the prefix gck_builder_:
--                   Builder on a heap of values that attributes share, Finds what is read from it,
--                   Fetch the calls around C_GetAttributeValue
--   Gcr/SshAgent    Packet is gcr/gcr-ssh-agent-util.c, Service is gcr/gcr-ssh-agent-service.c with the
--                   lookup of gcr/gcr-ssh-agent-preload.c
--   Tests           runs on small inputs, and the theorems at concrete inputs
--
-- A function of the source takes the buffer it changes and returns it, with its result in front. An
-- access to memory outside of a block ends the run in `fault`. Sizes are native numbers with the
-- wrap-around of size_t and of uint32_t written out where the source adds; buffers stay below 2^63
-- bytes, which malloc guarantees.
--
-- Parameters: what fresh memory holds for the values of attributes (as many bytes as were asked
-- for), the allocator (IsAllocator states what realloc documents, IsGenerous that it has memory to
-- give), the two ends of a connection (Streams, of GIO; IsQuiet states that what arrives is read,
-- IsPipe that what is written arrives), ssh-add (which keys it can load), the random bytes of
-- egg_random, the pool that the cells of secure memory come from, the pages and the memory that is
-- not secure, and the tests and conversions of character sets of GLib. The loop that replaces zero
-- random bytes runs on fuel, one unit for each round, since it need not end; where at most `wait`
-- draws in a row give zeros only, `wait + 1` rounds for each byte are enough. The loop that decodes
-- hexadecimal groups has as many rounds as the text has bytes. The parser of tags takes one unit of
-- fuel for a node or a list of nodes, and starts with twice the size of the block and one; blocks
-- are below 2^31 bytes, and tags that are written below 2^56. What the PKCS#11 modules answer to the
-- builder of chains is the record Store; its loop takes the fuel that it is given, since it need not
-- end. A certificate stands for its DER data and the names in it, which the parser of schemas finds.
-- The loop that divides decimal digits has four rounds for a digit.
--
-- Not modelled: the GObject shells and their properties, threads and locks (a handler runs alone, as
-- under the service's mutex), egg_secure_realloc_full and the records of secure memory, sockets and
-- child processes, the libraries for cryptography, and the parts of the repository that the manifest
-- lists as such. The counter of failures is a number without a bound.
pub mod Shared
pub mod Egg
pub mod Gcr
pub mod Gck
pub mod Tests
