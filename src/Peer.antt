-- ===== src/Peer.antt =====
-- peer/peer.go: one peer of a torrent, as its event loop sees it. What the loop sends to the torrent
-- is the list `events`, what it hands to the writer the list `sent`. `fates` says what becomes of
-- its next writes, each written message taking one, and `choices` how the next tests turn out
-- that depend on time, on rates or on how full a channel is. Times of use, rates and the upload
-- ticker are not kept. `none` is a panic.
pub mod Chunks
pub mod Writing
pub mod Handling
pub mod Events
pub mod Looping
pub mod Announcing
pub mod Accounting
mod Tests
use storrent.Prelude.{ℕ, Bool, List, [], ◌∷◌, ◌++◌, Option, none, some}
use storrent.Net.{Addr}
use storrent.Bitmap.{Bitmap}
use storrent.Pex
use storrent.PexState.{PexState}
use storrent.Piece.{Pieces}
use storrent.Requests.{Requests}
use storrent.Known.{Kind}
use storrent.Protocol.{Message}

-- A request of the peer's.
pub record Requested : Type 0 where
  pub index : ℕ
  pub begin : ℕ
  pub length : ℕ

pub data Fate : Type 0 where
  fine congested closed : Fate

pub data Failure : Type 0 where
  eof err_congested metadata_incomplete cannot_fast out_of_range overlong_bitfield : Failure
  duplicate_metadata inconsistent_bitmap duplicate_extended0 unexpected_metadata : Failure
  dont_have_from_seed unknown_extended unknown_message read_error : Failure
  timed_out : Failure

pub data TorEvent : Type 0 where
  tor_data : ℕ → ℕ → ℕ → Bool → TorEvent
  tor_drop : ℕ → ℕ → TorEvent
  tor_peer_unchoke tor_peer_interested : Bool → TorEvent
  tor_peer_have : ℕ → Bool → TorEvent
  tor_peer_bitmap : Bitmap → Bool → TorEvent
  tor_peer_extended : ℕ → TorEvent
  tor_metadata : ℕ → ℕ → List ℕ → TorEvent
  tor_peer_goaway : TorEvent
  tor_add_known : Addr → ℕ → Option (List ℕ) → List ℕ → Kind → TorEvent

-- What the peer answers to the queries of others. Rates and times are not kept.
pub data Reply : Type 0 where
  status : Bool → Bool → Bool → Bool → Bool → Bool → ℕ → Reply
  stats : Bool → Bool → Bool → Bool → Bool → Bool → ℕ → ℕ → ℕ → ℕ → ℕ → Reply
  pex_peer : Option Pex.Peer → Reply
  fast_pieces : List ℕ → Reply
  bitmap_is : Bitmap → Reply
  have_is : Bool → Reply

pub record Peer : Type 0 where
  pub counter : ℕ
  pub id : List ℕ
  pub ip : Addr
  pub port : ℕ
  pub info : Option (List ℕ)
  pub pieces : Pieces
  pub my_bitmap : Bitmap
  pub bitmap : Option Bitmap
  pub is_seed : Bool
  pub unchoked : Bool
  pub interested : Bool
  pub am_unchoking : Bool
  pub should_interested : Bool
  pub am_interested : Bool
  pub got_extended : Bool
  pub can_fast : Bool
  pub pex_ext : ℕ
  pub metadata_ext : ℕ
  pub dont_have_ext : ℕ
  pub upload_only_ext : ℕ
  pub prefers_encryption : Bool
  pub upload_only : Bool
  pub req_q : ℕ
  pub requests : Requests
  pub requested : List Requested
  pub pex : List Pex.Peer
  pub fast : List ℕ
  pub pex_state : PexState
  pub incoming : Bool
  pub events : List TorEvent
  pub replies : List Reply
  pub sent : List Message
  pub fates : List Fate
  pub choices : List Bool
