-- ===== src/Lib.antt =====
-- storrent, a BitTorrent client: its data structures, its piece store and its wire protocol.
--
-- The program keeps one event loop per torrent (tor/tor.go) and one per peer (peer/peer.go). A peer's
-- loop reads messages with the reader of protocol/reader.go, sends them through protocol/writer.go,
-- and keeps the requests that it may send, and has sent, in the queue of peer/requests/requests.go;
-- the torrent keeps what its clients want in tor/requests.go. The data that arrives goes to the
-- piece store of tor/piece/piece.go, which goroutines share: a piece is filled chunk by chunk, hashed when all its chunks are there, and then either marked as
-- complete or emptied. Sets of pieces and of chunks are the bitmaps of bitmap/bitmap.go.
--
-- The modules, with the code that they model:
--   Prelude    names of the libraries, Boolean tests, lists measured by native numbers.
--   Bitmap     bitmap/bitmap.go. A bitmap is the list of its bytes. Bits has the laws of the bits of
--              a byte, Updates is about Set, Reset and SetMultiple, Queries about Empty, All and
--              EqualValue, Extent about Count and Len, Iteration about AllSet.
--   Hash       Equal of hash/hash.go. The panic on a hash of another length is `none`.
--   Net        what the program uses of net/netip and encoding/binary.
--   Pex        ParseCompact and FormatCompact of pex/pex.go; RoundTrip and NoFlags relate them.
--   Protocol   protocol/requests.go: the messages. Writer and Reader have Write and Read of
--              protocol/writer.go and protocol/reader.go, on lists of bytes. Reader.Framing and
--              Reader.RoundTrip relate the two, Reader.Consumption is about where Read stops.
--              github.com/zeebo/bencode is a parameter, the record `Codec`.
--   Requests   peer/requests/requests.go. Occurrences and Membership have the invariant and `del`,
--              Queueing the other operations, Expiry the loop of Expire.
--   Piece      tor/piece/piece.go. A method that holds the mutex is one step. Layout has the lengths
--              of pieces, Store AddData, Life Finalise and `del`. Life.Steps has the steps that
--              concurrent calls make in any order, Life.Reading what ReadAt then finds. SHA-1 and
--              the allocator's answer are parameters. Store.Total is about whether AddData returns.
--   Requested  tor/requests.go: the pieces that clients want, with their priorities and the channels
--              that are closed when a piece is there. Channels and Closing are about the channels,
--              Runs about any sequence of calls, Priorities about the multiset of priorities.
--   FilePath   path/path.go. Parsing relates Parse and String, Order is about Compare.
--   Known      Update, Recent, Bad and ReallyBad of known/known.go.
--   PexState   the pexState of peer/peer.go; Places says where an address can be.
--   Peer       peer/peer.go: one peer, as its loop sees it. Chunks has the chunk numbers, Writing what a
--              peer sends, Handling with its children handleMessage, Events handleEvent and
--              scheduleUpload, Looping the ticker and the loop of Run, Announcing the bitfield.
--              Accounting follows each chunk that the torrent asks for through all of these: Frames
--              and Quiet have the steps that touch no request, Requesting maybeRequest, Handlers,
--              PieceData, Messages, Extended and Asking the others, Loop a round of the loop and
--              Runs whole runs. What becomes of a write, and the tests that depend on time and
--              rates, are taken from lists in the state of the peer.
--   InFlight   the counts of requests in flight of tor/tor.go, which the TorDrop and TorData that peers
--              send change; Released is about that.
--   Metadata   tor/metadata.go: the votes on the size of the metadata, and gotMetadata up to its call
--              of MetadataComplete. Votes is about the guess, Chunks about gotMetadata.
-- The modules called Tests hold runs of the code and the theorems at concrete inputs.
--
-- State is passed explicitly, `none` is a panic unless a comment says otherwise, and errors are
-- values. Unsigned arithmetic is written with `% 2 ^ 32` where the source can wrap around. The
-- loop of AddData runs on fuel, the length of its input, since each round takes at least a byte; the
-- loop of Expire runs on the number of requests, since each round removes one or goes past one; that
-- of maybeRequest on one more than the length of the queue, since each round but the last takes a
-- request from it.
--
-- Not modelled: Hole, Expire and the loop of Del of the piece store; the torrent's event loop,
-- but for the counts in flight; of the peer's, the start of Run, rates and timers, the count of the
-- unchoked peers, which all peers share, and the division by a piece size of 0; of known/known.go, the
-- map of addresses; trackers, web seeds, the DHT, encryption, the HTTP server and the file system,
-- which are input and output or calls of libraries; torrent files.
pub mod Prelude
pub mod Bitmap
pub mod Hash
pub mod Net
pub mod Pex
pub mod Protocol
pub mod Requests
pub mod Piece
pub mod Metadata
pub mod Requested
pub mod FilePath
pub mod Known
pub mod PexState
pub mod Peer
pub mod InFlight
