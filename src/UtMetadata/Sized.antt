-- ===== src/UtMetadata/Sized.antt =====
-- That the size of the metadata is the length of the buffer for it, kept by every method.
use browsertorrent.Common.{
  ℕ, ◌+◌, ◌*◌, ◌≡◌, refl, sym, ap, ◌∙◌, Bool, true, not, ◌&&◌, ◌||◌, Option, none, some, List, ◌++◌,
  arith, Bool-cases, inl, inr, length, ltb, leb, leb→le, replicate, take, drop, length-replicate,
  length-append, length-take, length-drop, &&-eq-true, Result, ok, err, if-eq-some,
}
use browsertorrent.Common.Int.{pos, sub_ℕ, is_positive}
use browsertorrent.Bitfield
use browsertorrent.Bitfield.{Bitfield}
use browsertorrent.UtMetadata.{
  UtMetadata, Message, Bencode, Outcome, done, thrown, and_then, state, emit, drop_request,
  request_piece, on_request, request_pieces, failed_metadata, option_or, has_size, size_or_zero,
  piece_length, set_metadata, check_complete, check_done, write_at, mark_piece, warning, Effect,
  store_piece, on_data, on_reject, handle_timeout, empty_bitfield, all_pieces, invalid_metadata,
  too_many_rejects, timeout, delete_request, attempts_after, find_request, max_attempts,
  send_reject,
}
use browsertorrent.UtMetadata.Frame.{
  Frame, drop_request-Frame, send_data-Frame, send_message-Frame, request_piece-Frame,
}
use browsertorrent.UtMetadata.Buffer.{request_pieces_lem}
use mathlib.Core.Path.{subst}

-- There is a size if there is a buffer, and it is the buffer's length.
abbrev pub SizedFields : Option (List ℕ) → Option ℕ → Type 0
SizedFields none size = size ≡ none
SizedFields (some bytes) size = size ≡ some (length bytes)

abbrev pub Sized : UtMetadata → Type 0
Sized s = SizedFields s.metadata s.metadata_size

abbrev pub SizedOutcome : Outcome → Type 0
SizedOutcome o = Sized (state o)

pub Frame-Sized : {s s' : UtMetadata} → Frame s s' → Sized s → Sized s'
Frame-Sized f h = rw (f.metadata, f.metadata_size) h

pub request_pieces-Sized : (s : UtMetadata) → Sized s → SizedOutcome (request_pieces s)
request_pieces-Sized s h = elim (Bool-cases (s.fetching && has_size s.metadata_size)) [
  | inl go ↦
      Frame-Sized (request_pieces_lem s go) (zeros s.metadata_size (&&-eq-true s.fetching _ go).1)
  | inr stay ↦ unfold request_pieces in rw stay h
]
  where
    zeros :
        (o : Option ℕ)
        → has_size o ≡ true
        → o ≡ some (length (replicate {A = ℕ} (size_or_zero o) 0))
    zeros none e = cc
    zeros (some n) e = ap some (sym (length-replicate n 0))

pub emit-Sized : (e : Effect) (s : UtMetadata) → Sized s → Sized (emit e s)
emit-Sized e s h = unfold emit in h

failed_metadata-Sized : (s : UtMetadata) → Sized s → SizedOutcome (failed_metadata s)
failed_metadata-Sized s h = elim (Bool-cases (has_size s.metadata_size)) [
  | inl sized ↦
      let s' : UtMetadata = record s {
        bitfield = empty_bitfield s.num_pieces;
        remaining_rejects = sub_ℕ s.remaining_rejects s.num_pieces;
      } in
      elim (Bool-cases (is_positive s'.remaining_rejects)) [
        | inl more ↦ unfold failed_metadata in rw (sized, more) (request_pieces-Sized s' h)
        | inr last ↦
            unfold failed_metadata in rw (sized, last) (emit-Sized (warning invalid_metadata) s' h)
      ]
  | inr empty ↦ unfold failed_metadata in rw empty h
]

module _ (codec : Bencode) (peer_has : Bool) where
  pub set_metadata-Sized :
      (bytes : List ℕ) (s : UtMetadata) → Sized s → Sized (set_metadata codec peer_has bytes s)
  set_metadata-Sized bytes s h = elim (Bool-cases s.metadata_complete) [
    | inl complete ↦ unfold set_metadata in rw complete h
    | inr missing ↦ elim (Bool-cases peer_has) [
      | inl has ↦ unfold set_metadata emit in rw (missing, has) refl
      | inr has_not ↦ unfold set_metadata emit in rw (missing, has_not) refl
    ]
  ]

  check_complete-Sized :
      (o : Option (List ℕ)) (s : UtMetadata)
      → Sized s
      → SizedOutcome (check_complete codec peer_has o s)
  check_complete-Sized none s h = unfold check_complete in h
  check_complete-Sized (some bytes) s h = elim (Bool-cases (codec.decodes bytes)) [
    | inl good ↦ unfold check_complete in rw good (set_metadata-Sized bytes s h)
    | inr bad ↦ unfold check_complete in rw bad (failed_metadata-Sized s h)
  ]

  check_done-Sized : (s : UtMetadata) → Sized s → SizedOutcome (check_done codec peer_has s)
  check_done-Sized s h = elim (Bool-cases (all_pieces s.bitfield s.num_pieces 0)) [
    | inl all ↦ unfold check_done in rw all (check_complete-Sized s.metadata s h)
    | inr some_left ↦ unfold check_done in rw some_left h
  ]

write_at-length :
    (bytes buf : List ℕ) (offset : ℕ) (r : List ℕ)
    → write_at bytes offset buf ≡ some r
    → length r ≡ length bytes
unfolding write_at
write_at-length bytes buf offset r e =
    let (fits, eq) = if-eq-some (leb (offset + length buf) (length bytes)) _ e in
    let le = leb→le (offset + length buf) (length bytes) fits in
    rw
      (
        sym eq,
        length-append (take offset bytes) (buf ++ drop (offset + length buf) bytes),
        length-append buf (drop (offset + length buf) bytes),
        length-take offset bytes,
        length-drop (offset + length buf) bytes,
      )
      (omega arith)

option_or-Sized :
    (o : Option (List ℕ)) (size : Option ℕ)
    → has_size size ≡ true
    → SizedFields o size
    → size ≡ some (length (option_or o (replicate (size_or_zero size) 0)))
option_or-Sized none none e h = cc
option_or-Sized none (some n) e h = cc
option_or-Sized (some bytes) size e h = h

pub on_reject-Sized : (piece : ℕ) (s : UtMetadata) → Sized s → SizedOutcome (on_reject piece s)
on_reject-Sized piece s h =
    let s' : UtMetadata = drop_request piece s in
    let h' : Sized s' = Frame-Sized (drop_request-Frame piece s) h in
    elim (Bool-cases (is_positive s'.remaining_rejects && s'.fetching)) [
      | inl again ↦
          unfold on_reject in
          rw again
            (counted (request_piece piece s') (Frame-Sized (request_piece-Frame piece s') h'))
      | inr stop ↦ unfold on_reject in rw stop (emit-Sized (warning too_many_rejects) s' h')
    ]
  where
    counted :
        (o : Outcome)
        → SizedOutcome o
        → SizedOutcome
            (and_then (λ t. done (record t { remaining_rejects = sub_ℕ t.remaining_rejects 1 })) o)
    counted (done t) k = k
    counted (thrown t) k = k

pub on_request-Sized : (piece : ℕ) (s : UtMetadata) → Sized s → SizedOutcome (on_request piece s)
on_request-Sized piece s h =
    elim (Bool-cases (not s.metadata_complete || not (has_size s.metadata_size))) [
      | inl refuse ↦
          unfold on_request send_reject in
          rw refuse (Frame-Sized (send_message-Frame (Message.reject piece) s) h)
      | inr serve ↦ unfold on_request in rw serve (Frame-Sized (send_data-Frame piece _ _ s) h)
    ]

module _ (codec : Bencode) (peer_has : Bool) where
  mark_piece-Sized :
      (piece : ℕ) (s : UtMetadata) (r : Result Bitfield.BitfieldError Bitfield)
      → Sized s
      → SizedOutcome (mark_piece codec peer_has piece s r)
  mark_piece-Sized piece s (err e) h = unfold mark_piece in h
  mark_piece-Sized piece s (ok bf) h =
      unfold mark_piece in
      let s' : UtMetadata = record s { bitfield = bf } in
      check_done-Sized codec peer_has (drop_request piece s')
        (Frame-Sized (drop_request-Frame piece s') h)

  store_piece-Sized :
      (piece : ℕ) (s : UtMetadata) (old : List ℕ) (o : Option (List ℕ))
      → Sized s
      → s.metadata ≡ some old
      → ((r : List ℕ) → o ≡ some r → length r ≡ length old)
      → SizedOutcome (store_piece codec peer_has piece s o)
  store_piece-Sized piece s old none h e same = unfold store_piece in h
  store_piece-Sized piece s old (some bytes) h e same =
      unfold store_piece in
      let sized : SizedFields (some old) s.metadata_size =
        subst (λ o. SizedFields o s.metadata_size) e h in
      mark_piece-Sized piece (record s { metadata = some bytes })
        (Bitfield.set s.bitfield (pos piece)) (sized ∙ ap some (sym (same bytes refl)))

  pub on_data-Sized :
      (piece : ℕ) (buf : List ℕ) (s : UtMetadata)
      → Sized s
      → SizedOutcome (on_data codec peer_has piece buf s)
  on_data-Sized piece buf s h =
      elim (Bool-cases
        (ltb piece_length (length buf) || (not s.fetching || not (has_size s.metadata_size)))) [
          | inl skip ↦ unfold on_data in rw skip h
          | inr accept ↦ elim (Bool-cases (Bitfield.get s.bitfield (pos piece))) [
            | inl got ↦ unfold on_data in rw (accept, got) h
            | inr wanted ↦
                let bytes : List ℕ =
                  option_or s.metadata (replicate (size_or_zero s.metadata_size) 0) in
                let some_size : has_size s.metadata_size ≡ true = ground arith in
                let h' : s.metadata_size ≡ some (length bytes) =
                  option_or-Sized s.metadata s.metadata_size some_size h in
                unfold on_data in
                rw (accept, wanted)
                  (store_piece-Sized piece (record s { metadata = some bytes }) bytes
                    (write_at bytes (piece * piece_length) buf) h' refl
                    (λ r. write_at-length bytes buf (piece * piece_length) r))
          ]
        ]

  pub handle_timeout-Sized :
      (piece : ℕ) (s : UtMetadata) → Sized s → SizedOutcome (handle_timeout codec peer_has piece s)
  handle_timeout-Sized piece s h =
      let s' : UtMetadata = record s { requested = delete_request piece s.requested } in
      elim (Bool-cases (s'.fetching)) [
        | inl on ↦
            elim (Bool-cases
              (ltb (attempts_after (find_request piece s'.requested)) max_attempts)) [
                | inl again ↦
                    let eq : handle_timeout codec peer_has piece s ≡ request_piece piece s' =
                      unfold handle_timeout in rw (on, again) in
                    subst SizedOutcome (sym eq) (Frame-Sized (request_piece-Frame piece s') h)
                | inr stop ↦
                    let eq : handle_timeout codec peer_has piece s
                        ≡ check_done codec peer_has (emit (warning timeout) s') =
                      unfold handle_timeout in rw (on, stop) in
                    subst SizedOutcome (sym eq) (
                      check_done-Sized codec peer_has (emit (warning timeout) s')
                        (emit-Sized (warning timeout) s' h))
              ]
        | inr off ↦ unfold handle_timeout in rw off h
      ]
