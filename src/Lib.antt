-- ===== src/Lib.antt =====
-- Avro for Go: the wire format, the checksum and the schema logic of the package at the root of
-- the repository.
--
-- Parts, and how they interact. A Writer (writer.go) appends the binary form of primitive values
-- and block headers to a buffer and flushes it to an io.Writer. A Reader (reader.go,
-- reader_skip.go) takes such values from a buffer that it refills from an io.Reader. A frozen
-- configuration (config.go) limits what a Reader accepts. The codecs of arrays, maps and enums
-- (codec_array.go, codec_map.go, codec_enum.go) stand on both, and the skip decoders
-- (codec_skip.go) pass over values of a schema that nobody reads. schema_compatibility.go
-- compares the schema of a reader with that of a writer. ocf/ocf.go keeps values in files: its
-- Encoder collects the bytes of values and writes them in blocks through a Writer, compressed by
-- a codec of ocf/codec.go, and its Decoder reads the blocks through a Reader and hands each to a
-- decoder of values. pkg/crc64/crc64.go is the checksum behind fingerprints of schemas, and soe/
-- frames a payload by the fingerprint of its schema. registry/decoder.go decodes a payload behind
-- the number or the GUID of a schema that registry/client.go asks a registry for, over HTTP, and
-- keeps.
--
-- Files. Reader.antt and the files in Reader/ are reader.go and reader_skip.go: State is the
-- struct and loadMore, Varint is ReadInt, ReadLong and skipVarint, Values is the other Read
-- operations, Skip is SkipNBytes and what uses it; Scan, Stream, Slices, Rounds, Chunks, Copy,
-- Passing, Settings and Strings have the lemmas and theorems about them. Writer.antt is
-- writer.go; Writer/Varint and Writer/Sink are about its varints and Flush. RoundTrip.antt and
-- RoundTrip/ relate the two. EnumCodec.antt is enumCodec of codec_enum.go with Symbol of
-- schema.go. ArrayCodec.antt and ArrayCodec/ are codec_array.go, with longCodec of
-- codec_native.go as a codec of elements. MapCodec.antt and MapCodec/ are the codec of string
-- keys of codec_map.go. SkipCodec.antt is codec_skip.go with checkFixedSize of codec_fixed.go and
-- getUnionSchema of codec_union.go. Schema.antt has the types of schema.go, and Records.antt and
-- Records/ its validateRecordFields. Ocf.antt and Ocf/ are ocf/ocf.go and ocf/codec.go: Decoder
-- and Encoder are the two structs with their operations, Opening and Creating the constructors,
-- HeaderFields the codec of the header with the parts of codec_record.go, codec_fixed.go and
-- codec_native.go that it needs, Options the options, Codecs the compression; BlockData, Blocks,
-- Progress, Settles, Runs, Headers, HeaderBytes, HeaderMeta, Appending, Complete, Container and
-- the files in Files/ have the lemmas and theorems about them. Compatibility.antt and
-- Compatibility/ are schema_compatibility.go: Fingerprint is the compatibilityFingerprintWriter,
-- Match is compatible and match with the cache, and Lookup, Fields, Symbols and the files in
-- Match/ are about them. Registry.antt is registry/decoder.go with the check of a GUID;
-- Registry/Requests, Registry/Client and Registry/Operations are registry/client.go: paths,
-- requests and answers, the caches with GetSchema and GetSchemaByGUID, and the operations on
-- subjects and levels. The other files in Registry/ are about them. Soe.antt and Soe/ are
-- soe/soe.go, soe/basic.go, soe/dynamic.go and soe/resolvers/memoryschemastore.go. Crc64.antt is
-- pkg/crc64/crc64.go, Config.antt the limits of config.go and config_x64.go, Utf8.antt the test
-- of Go's unicode/utf8, Errors.antt the error values, Words.antt and Bits.antt Go's integers.
-- Examples.antt and Examples/ run the code.
--
-- How Go is read. Functions keep their names in snake case, and the receiver is an argument and a
-- result. The bytes between the read and write positions of a Go buffer are a list. An io.Reader
-- is the list of its answers, each some bytes and perhaps an error, and an io.Writer the list of
-- its answers; a theorem that needs good behaviour of an io.Reader says so in IsSteady. An int
-- has 64 bits. A uint64 is a number below 2 ^ 64, an int64 the integer that it stands for. A
-- float is its bit pattern. A string of the wire is its bytes, a name in a schema is a String. An
-- error is a value of Errors.Error, with the text where the source has a fixed one. A pointer to
-- a record, enum or fixed schema is an address in a heap of definitions, so that records may hold
-- themselves. An interface of Go that code outside may implement (avro.API, SchemaResolver, the
-- fingerprint of a Schema, the codec of an array's elements and of a container's values, a
-- compression package, an HTTP client with the world behind it, JSON) is a record of functions.
--
-- Bounds and fuel. The refill loop of ReadInt and ReadLong takes fuel: one round more than the
-- largest size of a number, since each round but the first takes a byte. Read and SkipNBytes take
-- their size as fuel, since each round passes a byte at least. The encoder of an array takes its
-- length, since a block holds an element at least, and that of a map one round more, for the
-- empty block at the end. The block loops of decoders take a round for each block and one for the
-- end. HasNext and skipToEnd take a round for each byte to come and one for the end, since each
-- block takes a byte at least, and readBlockData its size; compatible, the writer of its
-- fingerprint and the skip decoders follow pointers and take fuel for the depth. A Reader that
-- runs out of fuel has the error diverged, which is no error of Go, and so has an answer of
-- compatible.
--
-- Not modelled: the construction of codecs by reflection over Go memory, keys of maps that
-- marshal themselves, untyped values, JSON schema parsing, the resolution of schemas, the
-- compression packages and the options of zstd, the construction and the options of the registry
-- client, the code generator and the commands.
pub mod Prelude
pub mod Bits
pub mod Words
pub mod Errors
pub mod Config
pub mod Utf8
pub mod Reader
pub mod Writer
pub mod RoundTrip
pub mod Ocf
pub mod Registry
pub mod Crc64
pub mod Schema
pub mod Compatibility
pub mod Records
pub mod EnumCodec
pub mod ArrayCodec
pub mod MapCodec
pub mod SkipCodec
pub mod Soe
pub mod Examples
