-- ===== src/UtMetadata/Counts.antt =====
-- How many messages and timeout warnings a call adds.
use browsertorrent.Common.{
  ℕ, suc, ◌+◌, ◌≤◌, ◌≡◌, refl, ap, ◌∙◌, true, Option, none, some, List, [], ◌∷◌, ◌++◌, arith,
  Bool-cases, if-true, inl, inr,
}
use browsertorrent.Common.Int.{ℤ}
use browsertorrent.UtMetadata.{
  UtMetadata, Effect, Message, Warning, PieceRequest, send, start_timer, clear_timer, warning, emit,
  find_request, clear_request_timer, send_to, send_message, note_request, request_piece, Outcome,
  done, thrown, and_then,
}
use browsertorrent.UtMetadata.Frame.{clear_request_timer-Frame}

-- The messages that ask for a piece, the messages of any kind, and the timeout warnings.
unfoldable pub sends : List Effect → ℕ
sends [] = 0
sends (send id m ∷ es) = suc (sends es)
sends (_ ∷ es) = sends es

pub timeout_warnings : List Effect → ℕ
timeout_warnings [] = 0
timeout_warnings (warning Warning.timeout ∷ es) = suc (timeout_warnings es)
timeout_warnings (_ ∷ es) = timeout_warnings es

pub sends-append : (es fs : List Effect) → sends (es ++ fs) ≡ sends es + sends fs
unfolding sends
sends-append [] fs = omega arith
sends-append (send id m ∷ es) fs = omega (arith, sends-append es fs)
sends-append (_ ∷ es) fs = sends-append es fs

timeout_warnings-append :
    (es fs : List Effect) → timeout_warnings (es ++ fs) ≡ timeout_warnings es + timeout_warnings fs
unfolding timeout_warnings
timeout_warnings-append [] fs = omega arith
timeout_warnings-append (warning Warning.timeout ∷ es) fs =
    omega (arith, timeout_warnings-append es fs)
timeout_warnings-append (warning _ ∷ es) fs = timeout_warnings-append es fs
timeout_warnings-append (_ ∷ es) fs = timeout_warnings-append es fs

-- What the parts of a request add to the two counts.
pub clear_request_timer-counts :
    (o : Option PieceRequest) (s : UtMetadata)
    → (sends (clear_request_timer o s).effects ≡ sends s.effects)
      × (timeout_warnings (clear_request_timer o s).effects ≡ timeout_warnings s.effects)
unfolding clear_request_timer emit sends timeout_warnings
clear_request_timer-counts none s = (refl, refl)
clear_request_timer-counts (some r) s = (
  omega (arith, sends-append s.effects (clear_timer r.timer ∷ [])),
  omega (arith, timeout_warnings-append s.effects (clear_timer r.timer ∷ [])),
)

-- A call sends one message at most, none if it throws, and gives no timeout warning.
abbrev pub SendsOne : UtMetadata → Outcome → Type 0
SendsOne s (done t) =
    (sends t.effects ≤ sends s.effects + 1)
    × (timeout_warnings t.effects ≡ timeout_warnings s.effects)
SendsOne s (thrown t) =
    (sends t.effects ≡ sends s.effects) × (timeout_warnings t.effects ≡ timeout_warnings s.effects)

send-counts :
    (id : ℤ) (m : Message) (s : UtMetadata)
    → (sends (emit (send id m) s).effects ≡ sends s.effects + 1)
      × (timeout_warnings (emit (send id m) s).effects ≡ timeout_warnings s.effects)
unfolding emit sends timeout_warnings
send-counts id m s = (
  omega (arith, sends-append s.effects (send id m ∷ [])),
  omega (arith, timeout_warnings-append s.effects (send id m ∷ [])),
)

send_to-SendsOne : (o : Option ℤ) (m : Message) (s : UtMetadata) → SendsOne s (send_to o m s)
unfolding send_to
send_to-SendsOne none m s = (omega arith, refl)
send_to-SendsOne (some id) m s = elim (Bool-cases (s.wire_accepts id m)) [
  | inl e ↦ let (one, same) = send-counts id m s in rw e (omega (arith, one), same)
  | inr e ↦ rw e (refl, refl)
]

note_request-counts :
    (piece : ℕ) (o : Option PieceRequest) (s : UtMetadata)
    → (sends (note_request piece o s).effects ≡ sends s.effects)
      × (timeout_warnings (note_request piece o s).effects ≡ timeout_warnings s.effects)
unfolding note_request emit sends timeout_warnings
note_request-counts piece o s =
    let timer : List Effect = start_timer s.next_timer piece ∷ [] in
    (
      omega (arith, sends-append s.effects timer),
      omega (arith, timeout_warnings-append s.effects timer),
    )

pub request_piece-SendsOne : (piece : ℕ) (s : UtMetadata) → SendsOne s (request_piece piece s)
unfolding request_piece send_message
request_piece-SendsOne piece s =
    let o : Option PieceRequest = find_request piece s.requested in
    let t : UtMetadata = clear_request_timer o s in
    noted o t (clear_request_timer-counts o s) (send_to t.extension_id (Message.request piece) t)
      (send_to-SendsOne t.extension_id (Message.request piece) t)
  where
    noted :
        (o : Option PieceRequest) (t : UtMetadata)
        → (sends t.effects ≡ sends s.effects)
          × (timeout_warnings t.effects ≡ timeout_warnings s.effects)
        → (r : Outcome) → SendsOne t r
        → SendsOne s (and_then (λ u. done (note_request piece o u)) r)
    noted o t cleared (done u) h =
        let (same, none_more) = note_request-counts piece o u in
        (omega (arith, same, h.0, cleared.0), none_more ∙ h.1 ∙ cleared.1)
    noted o t cleared (thrown u) h = (h.0 ∙ cleared.0, h.1 ∙ cleared.1)

-- A request that the wire takes is one message, and no warning.
pub request_piece-counts :
    (piece : ℕ) (s : UtMetadata) (id : ℤ)
    → s.extension_id ≡ some id
    → s.wire_accepts id (Message.request piece) ≡ true
    → (t : UtMetadata) × (request_piece piece s ≡ done t)
      × (sends t.effects ≡ sends s.effects + 1)
      × (timeout_warnings t.effects ≡ timeout_warnings s.effects)
unfolding request_piece send_message send_to
request_piece-counts piece s id known accepts =
    let o : Option PieceRequest = find_request piece s.requested in
    let t : UtMetadata = clear_request_timer o s in
    let f = clear_request_timer-Frame o s in
    let u : UtMetadata = emit (send id (Message.request piece)) t in
    let takes : t.wire_accepts id (Message.request piece) ≡ true =
      ap (λ a. a id (Message.request piece)) f.wire_accepts ∙ accepts in
    let noted : UtMetadata → Outcome = λ r. done (note_request piece o r) in
    let (cleared, quiet) = clear_request_timer-counts o s in
    let (one, quiet') = send-counts id (Message.request piece) t in
    let (same, quiet'') = note_request-counts piece o u in
    (
      note_request piece o u,
      ap (λ x. and_then noted (send_to x (Message.request piece) t)) (f.extension_id ∙ known)
          ∙ ap (and_then noted)
              (if-true (t.wire_accepts id (Message.request piece)) (done u) (thrown t) takes),
      omega (arith, same, one, cleared),
      quiet'' ∙ quiet' ∙ quiet,
    )
