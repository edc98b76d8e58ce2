-- ===== src/Peer/Accounting/Loop.antt =====
-- The loop of Run in peer/peer.go and the chunks that the peer is asked for.
use storrent.Prelude.{
  ℕ, ◌+◌, ◌^◌, ◌≤◌, ◌<◌, ◌≡◌, refl, Bool, true, false, not, List, [], ◌∷◌, Option, none, some, ◌==◌,
  if◌then◌else◌, ◌⊎◌, arith, inl, inr, Bool-cases,
}
use storrent.Bitmap
use storrent.Requests.Occurrences.{times}
use storrent.Peer.{Peer, Failure, eof, metadata_incomplete, bitmap_is, fast_pieces, have_is}
use storrent.Peer.Writing.{bits, is_some, set_choking}
use storrent.Peer.Handling.{maybe_request}
use storrent.Peer.Events
use storrent.Peer.Events.{PeerEvent, handle_event, request_chunks, pex_all}
use storrent.Peer.Looping.{tick, tick_rest, Input, received, told, upload_due, ticked, ended, round}
use storrent.Peer.Accounting.{IsSound, Moves, Ends, quiet-Moves, Moves-trans}
use storrent.Peer.Accounting.Frames.{view-set_choking}
use storrent.Peer.Accounting.Requesting.{maybe_request-Moves}
use storrent.Peer.Accounting.Handlers.{Handled, stays, asks, quiet-Handled, either-Handled}
use storrent.Peer.Accounting.Messages.{is_nil, handle_message-Handled}
use storrent.Peer.Accounting.Quiet.{
  metadata_complete-Handled, peer_have-Handled, get_metadata-Handled, reply-Handled,
  get_status-Handled, get_stats-Handled, get_pex-Handled, schedule_upload-Handled, view-tick_rest,
}
use storrent.Peer.Accounting.Asking.{
  Gains, Moves-Gains, request_chunks-Gains, handle_cancel_chunk-Handled,
  handle_cancel_piece-Handled, expire_requests-Moves,
}

-- How often a chunk is asked for by one input, and by several.
abbrev pub asked_by : Input → ℕ → ℕ
asked_by (received m) c = 0
asked_by (told (Events.request l)) c = times c l
asked_by (told (Events.metadata_complete info)) c = 0
asked_by (told (Events.have i b)) c = 0
asked_by (told (Events.cancel_chunk k)) c = 0
asked_by (told (Events.cancel_piece i)) c = 0
asked_by (told (Events.be_interested b)) c = 0
asked_by (told (Events.get_metadata i)) c = 0
asked_by (told (Events.pex b l)) c = 0
asked_by (told Events.get_status) c = 0
asked_by (told Events.get_stats) c = 0
asked_by (told Events.get_pex) c = 0
asked_by (told Events.get_fast) c = 0
asked_by (told Events.get_bitmap) c = 0
asked_by (told (Events.get_have i)) c = 0
asked_by (told (Events.unchoke b)) c = 0
asked_by (told Events.stop) c = 0
asked_by upload_due c = 0
asked_by (ticked rto) c = 0
asked_by ended c = 0

-- What is known of a state in which an input is refused: a request is only if there is no metadata.
abbrev pub Refuses : Peer → Input → Type 0
Refuses p (told (Events.request l)) = is_some p.info ≡ false
Refuses p i = Unit

-- The inputs but the nil message.
abbrev pub Proper : Input → Type 0
Proper (received r) = is_nil r ≡ false
Proper i = Unit

abbrev pub asked : List (Input × ℕ) → ℕ → ℕ
asked [] c = 0
asked ((i, now) ∷ l) c = asked_by i c + asked l c

-- The round ends; if it is accepted, its chunks are accounted for, and if not, no chunk is lost.
abbrev pub Answers : Peer → (ℕ → ℕ) → Type 0 → Option (Peer × Option Failure) → Type 0
Answers p f Reason x =
    (p' : Peer) × (err : Option Failure) × (x ≡ some (p', err))
    × (((err ≡ none) × Gains p p' f) ⊎ ((is_some err ≡ true) × Moves p p' × Reason))

handled : (p : Peer) (x : Option (Peer × Option Failure)) → Handled p x → Answers p (λ c. 0) Unit x
handled p x (p', none, e, m) = (p', none, e, inl (refl, Moves-Gains p p' m))
handled p x (p', some err, e, m) = (p', some err, e, inr (refl, m, tt))

request-Answers :
    (p : Peer) (l : List ℕ) (now : ℕ)
    → IsSound p
    → ((c : ℕ) → 2 ^ 32 ≤ c → times c l ≡ 0)
    → Answers p (λ c. times c l) (is_some p.info ≡ false) (handle_event p (Events.request l) now)
unfolding handle_event
request-Answers p l now s small = elim (Bool-cases (is_some p.info)) [
  | inr missing ↦
      rw missing (p, some metadata_incomplete, refl, inr (refl, quiet-Moves p p s refl, refl))
  | inl there ↦
      let g = request_chunks-Gains p l now s small in
      let (p', e, m) = maybe_request-Moves (request_chunks p l now) now g.sound in
      rw (there, e)
        (
          p',
          none,
          refl,
          inl (refl, record { sound = m.sound; kept = λ c. omega (arith, g.kept c, m.kept c) }),
        )
]

pub handle_event-Answers :
    (p : Peer) (e : PeerEvent) (now : ℕ)
    → IsSound p
    → ((c : ℕ) → 2 ^ 32 ≤ c → asked_by (told e) c ≡ 0)
    → Answers p (asked_by (told e)) (Refuses p (told e)) (handle_event p e now)
unfolding handle_event
handle_event-Answers p (Events.request l) now s small = request-Answers p l now s small
handle_event-Answers p (Events.metadata_complete info) now s small =
    handled p _ (metadata_complete-Handled p info s)
handle_event-Answers p (Events.have i b) now s small = handled p _ (peer_have-Handled p i b s)
handle_event-Answers p (Events.cancel_chunk k) now s small = handled p _ (
    either-Handled (not (is_some p.info)) p _ _ (stays p (some metadata_incomplete) s)
      (handle_cancel_chunk-Handled p k now s))
handle_event-Answers p (Events.cancel_piece i) now s small =
    handled p _ (handle_cancel_piece-Handled p i now s)
handle_event-Answers p (Events.be_interested b) now s small =
    handled p _ (asks p (record p { should_interested = b }) s refl)
handle_event-Answers p (Events.get_metadata i) now s small =
    handled p _ (get_metadata-Handled p i s)
handle_event-Answers p (Events.pex b l) now s small = handled p _ (
    either-Handled (p.pex_ext == 0) p _ _ (stays p none s)
      (quiet-Handled p (record p { pex_state = pex_all b p.pex_state l }, none) s refl))
handle_event-Answers p Events.get_status now s small = handled p _ (get_status-Handled p s)
handle_event-Answers p Events.get_stats now s small = handled p _ (get_stats-Handled p s)
handle_event-Answers p Events.get_pex now s small = handled p _ (get_pex-Handled p s)
handle_event-Answers p Events.get_fast now s small =
    handled p _ (reply-Handled p p (fast_pieces p.fast) s refl)
handle_event-Answers p Events.get_bitmap now s small =
    handled p _ (reply-Handled p p (bitmap_is (Bitmap.copy (bits p.bitmap))) s refl)
handle_event-Answers p (Events.get_have i) now s small =
    handled p _ (reply-Handled p p (have_is (Bitmap.get (bits p.bitmap) i)) s refl)
handle_event-Answers p (Events.unchoke b) now s small =
    handled p _ (quiet-Handled p (set_choking p b) s (view-set_choking p b))
handle_event-Answers p Events.stop now s small = handled p _ (stays p (some eof) s)

tick-Handled : (p : Peer) (rto now : ℕ) → 0 < now → IsSound p → Handled p (tick p rto now)
unfolding tick
tick-Handled p rto now pos s =
    let (p1, dropped, e, m) = expire_requests-Moves p rto now pos s in
    let (p2, e', m') = again p1 dropped m.sound in
    let quiet = quiet-Moves p2 (tick_rest p2).0 m'.sound (view-tick_rest p2) in
    rw (e, e') (_, _, refl, Moves-trans p p2 _ (Moves-trans p p1 p2 m m') quiet)
  where
    again : (q : Peer) (b : Bool) → IsSound q → Ends q (if b then maybe_request q now else some q)
    again q true s' = maybe_request-Moves q now s'
    again q false s' = (q, refl, quiet-Moves q q s' refl)

pub round-Answers :
    (p : Peer) (i : Input) (now : ℕ)
    → 0 < now
    → IsSound p
    → ((c : ℕ) → 2 ^ 32 ≤ c → asked_by i c ≡ 0)
    → Proper i
    → Answers p (asked_by i) (Refuses p i) (round p i now)
unfolding round
round-Answers p (received r) now pos s small ok = elim (handle_message-Handled p r now s) [
  | inl h ↦ handled p _ h.1
  | inr h ↦ absurd (cc (ok, h.0))
]
round-Answers p (told e) now pos s small ok = handle_event-Answers p e now s small
round-Answers p upload_due now pos s small ok = handled p _ (schedule_upload-Handled p true s)
round-Answers p (ticked rto) now pos s small ok = handled p _ (tick-Handled p rto now pos s)
round-Answers p ended now pos s small ok = handled p _ (stays p (some eof) s)
