-- ===== src/Lib.antt =====
-- BrowserTorrent, a BitTorrent client for browsers: the codecs and the state behind a peer
-- connection, in packages/core/src, unless another place is named, and the swarms of the tracker
-- with their cache, in packages/websocket-tracker/src.
--
-- A peer connection starts with a handshake (core/handshake.ts). Then both sides exchange
-- messages (core/message.ts): among them the pieces that a peer has, which are kept in a bitfield
-- (core/bitfield.ts), and extended messages. Of these, ut_metadata (extensions/ut-metadata.ts)
-- fetches the metadata of a torrent in pieces, whose arrival it notes in a bitfield of its own.
-- The values of extended messages and of metainfo files are bencoded (utils/bencode.ts). Byte
-- streams are read and written in full by the loops of utils/byte-io.ts, and buffered by
-- utils/simple-buffer.ts. The wire (core/wire.ts) is one end of a connection: it cuts the bytes
-- that arrive into the handshake and the messages, checks and applies them, and sends its own.
--
-- - Common: lists, integers, words of bytes, JavaScript numbers and exceptions as values
--   (`Result`). A byte array is a list of natural numbers; `AllBytes` says they are below 256.
-- - Message: core/message.ts, with the IDs of core/constants.ts and `isNetPort` of utils/net.ts.
--   `encode_message` is `encodeMessage`, `encode_payload` and `encode_body` are
--   `encodeMessagePayload`, `decode_message` and `decode_payload` their converses. Message/Fields
--   and Message/Views have the lemmas on the fields, Message/RoundTrip and Message/Canonical the
--   two round trips.
-- - Bitfield: core/bitfield.ts, its methods under their names. Bitfield/Bytes and Bitfield/Raw
--   are about the bits of a byte and of a buffer, Bitfield/Laws about the methods, Bitfield/Count
--   about `count`.
-- - Handshake: core/handshake.ts. Handshake/Extensions is about the bits of the reserved bytes,
--   Handshake/Laws about `hasExtension` and `setExtension`, Handshake/RoundTrip about the codec.
-- - UtMetadata: extensions/ut-metadata.ts. The object is a record, each method a function on it,
--   and what it sends, starts or reports is listed in the record. UtMetadata/Frame says what
--   requests leave alone, UtMetadata/Counts and Retries count messages, UtMetadata/Buffer and
--   UtMetadata/Sized are about the buffer, UtMetadata/Steps about runs: a state and the events
--   that may come in any order. UtMetadata/Codec is the bencoded form of the messages,
--   UtMetadata/Info that of the metadata, both by Bencode.
-- - ByteIo: utils/byte-io.ts, with `readExactly` in ByteIo/Read and `writeAll` in ByteIo/Write.
-- - SimpleBuffer: utils/simple-buffer.ts, its methods under their names. SimpleBuffer/Laws is
--   about the storage, SimpleBuffer/Queue about the queue of unread bytes that it stands for.
-- - Hex: the hexadecimal codec and `isHex` of utils/encoding.ts, with the round trip in
--   Hex/RoundTrip and the strings that are accepted in Hex/Accepts.
-- - Bencode: utils/bencode.ts. Bencode/Encode is the encoder; Bencode/Decode has the readers of
--   integers and byte strings and the state of the loop of `_decodeOne`, Bencode/Loop the loop, a
--   round at a time (`round`), with `decode_prefix` for `decodePrefix`. Bencode/Decimal, Order
--   and Pieces are about numerals, keys and strings; Bencode/Steps, Leaves, Keys and Containers
--   about runs of the loop; Bencode/Canonical says which values come back, Bencode/RoundTrip and
--   Total that they do; Bencode/Termination, Sorted and Limits have the other results.
-- - Lru: packages/websocket-tracker/src/lru.ts, the cache in which the tracker keeps its swarms,
--   its methods under their names. A node is an address, each field of the nodes a function of
--   addresses. Lru/Links is about segments of the doubly linked list, Lru/View about the entries
--   a cache stands for, Lru/Moves, Names and Inserts about the steps that the methods share,
--   Lru/Laws, Puts and Walks about the methods, Lru/History and Capacity about sequences of
--   calls.
-- - Tracker: packages/websocket-tracker/src/peer.ts in Tracker/Peer and swarm.ts in
--   Tracker/Swarm, their methods under their names. A method returns what it returns or throws,
--   and the object after it. Tracker/Sets is about the sets of peers, Tracker/Laws about the
--   swarms as the entries of their cache, Tracker/Bounds about the managers that calls lead to,
--   Tracker/Connections and Closes about the connections and their sockets.
-- - Wire: core/wire.ts. Wire is the record of its fields, with the list of what it has done to
--   the listeners, the transport and the extension host; Wire/Options is the constructor,
--   Wire/Checks has the validations, Wire/Transitions `_applyLocalState` and `_applyRemoteState`,
--   Wire/Lifecycle the timers and `_terminate`, Wire/Send `_sendMessage`, Wire/Connect the
--   handshakes and the public senders, Wire/Dispatch `_dispatchMessage` and Wire/Receive `_onData`
--   with `_processBuffer` (`process_buffer`), whose loop is `process_frames`. Wire/Chunks, Frames,
--   Shape, Greeting, Stream, Kept, Cutting, Stability and Feeding are about the bytes that arrive
--   in chunks, Placing, Tasks and Turns about what waits behind an `await`, a list of tasks that
--   `run_tasks` does; Wire/Writing about `_writeFrame`;
--   Wire/Invariant and Reachable about the wires that calls lead to, with Blocks,
--   Requests, Accepting, Outstanding, Sending, Connecting and Reading for the single operations;
--   Wire/Refusals about errors and closed wires; Wire/Pair, Sent and Exchange about a message
--   between two ends, Wire/Meeting and Handshakes about their handshakes.
-- - ExtensionHost: core/extension-host.ts, its methods under their names, `use` as `use_extension`.
--   ExtensionHost/Host has the methods and ExtensionHost/Parsing `decodeExtendedHandshake`;
--   ExtensionHost/Names is about maps from names to IDs, Merging about the handshakes of the peer,
--   Registry, Calls and Reachable about the hosts that calls lead to. What its `send_handshake`
--   returns is what the wire's `Environment` calls `host_handshake`.
-- The Tests module of each part has runs at written-out inputs.
--
-- Parameters of the model are `TextEncoder` and `TextDecoder`, what utils/bencode.ts makes of the
-- metadata (the record `Bencode`, which `codec` of UtMetadata/Info fills), and the readers and
-- writers. What is assumed of them are the records and types `DecodesAscii`, `EncodesAscii`,
-- `Reads` and `Writes`. The loops of ByteIo run on fuel, the number of bytes to go: each round
-- moves a byte at least. The loop of the bencode decoder runs on fuel, twice the length of the
-- input and one: each round takes a byte or the value at hand. The loop of the wire runs on fuel,
-- the length of its buffer: each round takes four bytes at least. The loops over a cache run on
-- fuel, its size. The doubling of a storage runs on fuel, the size that is needed: each round
-- adds one at least. Every other loop goes down a list or a count.
--
-- Not modelled: texts of errors and the console; values of types that TypeScript rules out,
-- except where the code tests for them (`Number`, `Field`); messages of ut_metadata whose type or
-- piece is no natural number; in bencode, cyclic values, the buffer of the writer, and the place
-- of properties of a record whose names are array indices, which JavaScript lists first. Other
-- parts of the repository are not modelled: the server of the tracker
-- (packages/websocket-tracker), metainfo, magnet links, torrents, storage. Of the wire, its
-- listeners call no method of it, and what the extension host writes as extended handshake, and
-- whether the transport's `send` throws, are given with each call (the record `Environment`). Of
-- ut_metadata, whether `sendExtended` of its wire throws is a field, `wire_accepts`. Negative
-- fractions and infinite numbers do not appear. The user interface, the service worker and the tests are out of scope.
pub mod Bencode
pub mod Common
pub mod Message
pub mod Bitfield
pub mod Handshake
pub mod UtMetadata
pub mod ByteIo
pub mod SimpleBuffer
pub mod Hex
pub mod Lru
pub mod Tracker
pub mod Wire
pub mod ExtensionHost
