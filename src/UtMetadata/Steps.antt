-- ===== src/UtMetadata/Steps.antt =====
-- The runs of one `UtMetadata`: its public methods and its timers, in any order.
use browsertorrent.Common.{
  ℕ, zero, suc, ◌≡◌, refl, sym, ap, Bool, true, not, ◌&&◌, Option, none, some, List, [], ◌∷◌, arith,
  Bool-cases, inl, inr, leb, length-replicate, if-eq-some,
}
use browsertorrent.Common.Int.{ℤ, pos, negsuc}
use mathlib.Core.Path.{subst}
use browsertorrent.UtMetadata.{
  UtMetadata, Bencode, Outcome, Message, done, state, on_message, handle_timeout, request_pieces,
  Field, absent, other, number, ExtendedHandshake, handshake_id, handshake_size, valid_size,
  start_fetch, on_size, on_id, on_extended_handshake, fetch, clear_timers, cancel, set_metadata,
  on_register, initial, PieceRequest, has_size, max_metadata_size, warning, unsupported,
  invalid_size,
}
use browsertorrent.UtMetadata.Frame.{Frame, Frame-refl, Frame-trans, emit-Frame}
use browsertorrent.UtMetadata.Sized
use browsertorrent.UtMetadata.Sized.{Sized, SizedOutcome, Frame-Sized}
use browsertorrent.UtMetadata.Buffer.{request_pieces_lem}

-- What can happen to it, with a wire that takes other messages than before.
pub data Event : Type 0 where
  register : Option ℤ → Event
  handshake : ExtendedHandshake → Event
  message : ℕ → ℕ → List ℕ → Event
  timed_out : ℕ → Event
  start : Event
  stop : Event
  given : List ℕ → Event
  wire_changed : (ℤ → Message → Bool) → Event

-- What the object does then.
pub step : Bencode → Bool → Event → UtMetadata → Outcome
step codec peer_has (register id) s = done (on_register id s)
step codec peer_has (handshake h) s = on_extended_handshake h s
step codec peer_has (message type piece trailer) s = on_message codec peer_has type piece trailer s
step codec peer_has (timed_out piece) s = handle_timeout codec peer_has piece s
step codec peer_has start s = fetch s
step codec peer_has stop s = done (cancel s)
step codec peer_has (given bytes) s = done (set_metadata codec peer_has bytes s)
step codec peer_has (wire_changed accepts) s = done (record s { wire_accepts = accepts })

-- The states that events lead to.
pub data Reachable (codec : Bencode) (peer_has : Bool) : UtMetadata → Type 0 where
  new : (accepts : ℤ → Message → Bool) → Reachable codec peer_has (initial accepts)
  after :
      (e : Event) (s : UtMetadata)
      → Reachable codec peer_has s
      → Reachable codec peer_has (state (step codec peer_has e s))

valid_size-positive : (f : Field) (n : ℕ) → valid_size f ≡ some n → has_size (some n) ≡ true
unfolding valid_size
valid_size-positive absent n e = cc
valid_size-positive other n e = cc
valid_size-positive (number (negsuc m)) n e = cc
valid_size-positive (number (pos m)) n e =
    let (sound, eq) = if-eq-some (leb m max_metadata_size && not (leb m 0)) m e in
    rw (sym eq) (ground arith)

on_size-Sized :
    (f : Field) (o : Option ℕ) (s : UtMetadata)
    → valid_size f ≡ o
    → Sized s
    → SizedOutcome (on_size o s)
unfolding on_size start_fetch
on_size-Sized f none s e h = Sized.emit-Sized (warning invalid_size) s h
on_size-Sized f (some n) s e h =
    let go = valid_size-positive f n e in
    Frame-Sized (request_pieces_lem _ go) (ap some (sym (length-replicate n 0)))

on_id-Sized : (id size : Field) (s : UtMetadata) → Sized s → SizedOutcome (on_id id size s)
unfolding on_id
on_id-Sized absent size s h = Sized.emit-Sized (warning unsupported) s h
on_id-Sized other size s h = Sized.emit-Sized (warning unsupported) s h
on_id-Sized (number id) size s h = on_size-Sized size (valid_size size) _ refl h

clear_timers-Frame : (rs : List PieceRequest) (s : UtMetadata) → Frame s (clear_timers rs s)
unfolding clear_timers
clear_timers-Frame [] s = Frame-refl s
clear_timers-Frame (r ∷ rs) s = Frame-trans (emit-Frame _ s) (clear_timers-Frame rs _)

fetch-Sized : (s : UtMetadata) → Sized s → SizedOutcome (fetch s)
fetch-Sized s h = elim (Bool-cases s.metadata_complete) [
  | inl complete ↦ unfold fetch in rw complete h
  | inr missing ↦ elim (Bool-cases (has_size s.metadata_size)) [
    | inl sized ↦
        let s' : UtMetadata = record s { fetching = true } in
        let eq : fetch s ≡ request_pieces s' = unfold fetch in rw (missing, sized) in
        subst SizedOutcome (sym eq) (Sized.request_pieces-Sized s' h)
    | inr none_yet ↦ unfold fetch in rw (missing, none_yet) h
  ]
]

on_message-Sized :
    (codec : Bencode) (peer_has : Bool) (type piece : ℕ) (trailer : List ℕ) (s : UtMetadata)
    → Sized s
    → SizedOutcome (on_message codec peer_has type piece trailer s)
unfolding on_message
on_message-Sized codec peer_has zero piece trailer s h = Sized.on_request-Sized piece s h
on_message-Sized codec peer_has (suc zero) piece trailer s h =
    Sized.on_data-Sized codec peer_has piece trailer s h
on_message-Sized codec peer_has (suc (suc zero)) piece trailer s h = Sized.on_reject-Sized piece s h
on_message-Sized codec peer_has (suc (suc (suc type))) piece trailer s h = h

step-Sized :
    (codec : Bencode) (peer_has : Bool) (e : Event) (s : UtMetadata)
    → Sized s
    → SizedOutcome (step codec peer_has e s)
unfolding step on_register on_extended_handshake cancel
step-Sized codec peer_has (register id) s h = h
step-Sized codec peer_has (handshake m) s h = on_id-Sized (handshake_id m) (handshake_size m) s h
step-Sized codec peer_has (message type piece trailer) s h =
    on_message-Sized codec peer_has type piece trailer s h
step-Sized codec peer_has (timed_out piece) s h =
    Sized.handle_timeout-Sized codec peer_has piece s h
step-Sized codec peer_has start s h = fetch-Sized s h
step-Sized codec peer_has stop s h = Frame-Sized (clear_timers-Frame s.requested _) h
step-Sized codec peer_has (given bytes) s h = Sized.set_metadata-Sized codec peer_has bytes s h
step-Sized codec peer_has (wire_changed accepts) s h = h

-- Whatever handshakes, messages, timeouts and calls a `UtMetadata` has seen, it has a metadata size
-- if and only if it has a metadata buffer, and the size is the buffer's length.
pub reachable-Sized :
    (codec : Bencode) (peer_has : Bool) (s : UtMetadata) → Reachable codec peer_has s → Sized s
reachable-Sized codec peer_has s (new accepts) = unfold initial in refl
reachable-Sized codec peer_has s (after e t r) =
    step-Sized codec peer_has e t (reachable-Sized codec peer_has t r)
