-- ===== src/UtMetadata/Frame.antt =====
-- Requests, timers and messages leave the metadata and its bookkeeping alone.
use browsertorrent.Common.{
  ℕ, zero, suc, ◌+◌, ◌≡◌, refl, ◌∙◌, Option, none, some, List, [], ◌∷◌, ◌++◌, Bool-cases, inl, inr,
}
use browsertorrent.Common.Int.{ℤ}
use browsertorrent.UtMetadata.{
  UtMetadata, Effect, Message, PieceRequest, emit, find_request, clear_request_timer, drop_request,
  send_to, send_message, request_piece, send_data, request_from, Outcome, done, thrown, and_then,
  state, note_request,
}

-- The two states agree on all but requests, timers and effects.
pub record Frame (s s' : UtMetadata) : Type 0 where
  pub fetching : s'.fetching ≡ s.fetching
  pub metadata_complete : s'.metadata_complete ≡ s.metadata_complete
  pub metadata_size : s'.metadata_size ≡ s.metadata_size
  pub num_pieces : s'.num_pieces ≡ s.num_pieces
  pub remaining_rejects : s'.remaining_rejects ≡ s.remaining_rejects
  pub bitfield : s'.bitfield ≡ s.bitfield
  pub metadata : s'.metadata ≡ s.metadata
  pub extension_id : s'.extension_id ≡ s.extension_id
  pub wire_accepts : s'.wire_accepts ≡ s.wire_accepts

pub reframe :
    (s : UtMetadata) (rs : List PieceRequest) (timer : ℕ) (es : List Effect)
    → Frame s (record s { requested = rs; next_timer = timer; effects = es })
reframe s rs timer es = record {
  fetching = refl;
  metadata_complete = refl;
  metadata_size = refl;
  num_pieces = refl;
  remaining_rejects = refl;
  bitfield = refl;
  metadata = refl;
  extension_id = refl;
  wire_accepts = refl;
}

pub Frame-refl : (s : UtMetadata) → Frame s s
Frame-refl s = reframe s s.requested s.next_timer s.effects

pub Frame-trans : {s t u : UtMetadata} → Frame s t → Frame t u → Frame s u
Frame-trans f g = record {
  fetching = g.fetching ∙ f.fetching;
  metadata_complete = g.metadata_complete ∙ f.metadata_complete;
  metadata_size = g.metadata_size ∙ f.metadata_size;
  num_pieces = g.num_pieces ∙ f.num_pieces;
  remaining_rejects = g.remaining_rejects ∙ f.remaining_rejects;
  bitfield = g.bitfield ∙ f.bitfield;
  metadata = g.metadata ∙ f.metadata;
  extension_id = g.extension_id ∙ f.extension_id;
  wire_accepts = g.wire_accepts ∙ f.wire_accepts;
}

pub emit-Frame : (e : Effect) (s : UtMetadata) → Frame s (emit e s)
unfolding emit
emit-Frame e s = reframe s s.requested s.next_timer (s.effects ++ (e ∷ []))

pub clear_request_timer-Frame :
    (o : Option PieceRequest) (s : UtMetadata) → Frame s (clear_request_timer o s)
unfolding clear_request_timer
clear_request_timer-Frame none s = Frame-refl s
clear_request_timer-Frame (some r) s = emit-Frame _ s

pub drop_request-Frame : (piece : ℕ) (s : UtMetadata) → Frame s (drop_request piece s)
unfolding drop_request
drop_request-Frame piece s =
    let o : Option PieceRequest = find_request piece s.requested in
    let t : UtMetadata = clear_request_timer o s in
    Frame-trans (clear_request_timer-Frame o s) (reframe t _ t.next_timer t.effects)

send_to-Frame : (o : Option ℤ) (m : Message) (s : UtMetadata) → Frame s (state (send_to o m s))
unfolding send_to
send_to-Frame none m s = Frame-refl s
send_to-Frame (some id) m s = elim (Bool-cases (s.wire_accepts id m)) [
  | inl e ↦ rw e (emit-Frame _ s)
  | inr e ↦ rw e (Frame-refl s)
]

pub send_message-Frame : (m : Message) (s : UtMetadata) → Frame s (state (send_message m s))
unfolding send_message
send_message-Frame m s = send_to-Frame s.extension_id m s

and_then-Frame :
    (s : UtMetadata) (f : UtMetadata → Outcome) (o : Outcome)
    → Frame s (state o)
    → ((t : UtMetadata) → Frame t (state (f t)))
    → Frame s (state (and_then f o))
and_then-Frame s f (done t) h k = Frame-trans h (k t)
and_then-Frame s f (thrown t) h k = h

pub note_request-Frame :
    (piece : ℕ) (o : Option PieceRequest) (s : UtMetadata) → Frame s (note_request piece o s)
unfolding note_request emit
note_request-Frame piece o s = reframe s _ _ _

pub request_piece-Frame : (piece : ℕ) (s : UtMetadata) → Frame s (state (request_piece piece s))
unfolding request_piece
request_piece-Frame piece s =
    let existing = find_request piece s.requested in
    let t : UtMetadata = clear_request_timer existing s in
    Frame-trans (clear_request_timer-Frame existing s) (
      and_then-Frame t (λ u. done (note_request piece existing u))
        (send_message (Message.request piece) t) (send_message-Frame (Message.request piece) t)
        (note_request-Frame piece existing))

pub request_from-Frame : (n piece : ℕ) (s : UtMetadata) → Frame s (state (request_from n piece s))
unfolding request_from
request_from-Frame zero piece s = Frame-refl s
request_from-Frame (suc n) piece s =
    and_then-Frame s (request_from n (piece + 1)) (request_piece piece s)
      (request_piece-Frame piece s) (request_from-Frame n (piece + 1))

pub send_data-Frame :
    (piece : ℕ) (buf : List ℕ) (total : ℕ) (s : UtMetadata)
    → Frame s (state (send_data piece buf total s))
unfolding send_data
send_data-Frame piece buf total s =
    Frame-trans (drop_request-Frame piece s) (send_message-Frame _ (drop_request piece s))
