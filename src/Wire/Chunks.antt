-- ===== src/Wire/Chunks.antt =====
-- `_onData`: how the stream of bytes is cut into chunks makes no difference.
use browsertorrent.Common.{
  ℕ, zero, suc, ◌+◌, ◌≤◌, ◌≡◌, ◌≢◌, refl, sym, ap, ◌∙◌, ◌⊎◌, inl, inr, List, [], ◌∷◌, ◌++◌, Result,
  ok, err, ◌>>=◌, ◌>>◌, length, take, leb, ◌==◌, arith, Bool-cases, leb→le, le→leb, length-append,
  drop-append_left,
}
use browsertorrent.Common.Words.{word32}
use browsertorrent.Message
use browsertorrent.Message.{
  Payload, choke, unchoke, interested, not_interested, have_all, have_none, have, suggest_piece,
  allowed_fast, port, bitfield, request, cancel, reject_request, piece, extended, unknown,
  hash_request, hash_reject, hashes, PeerMessage, payload, decode_payload,
}
use browsertorrent.Wire.{handle_extended, log, WireError, Wire, Environment}
use browsertorrent.Wire.Receive.{
  Front, incomplete, keep_alive_frame, too_long, frame, split_frame, front, Round, waiting, next,
  failed, accept, receive_message, on_front, round, check_received, round_of, of_codec,
}
use browsertorrent.Bencode.{Value}
use browsertorrent.Bencode.Decode.{DecodeError}
use browsertorrent.Bencode.Loop.{decode}
use browsertorrent.Wire.Dispatch.{
  dispatch, dispatch_extended, is_zero, extended_options, emit_handshake,
}
use browsertorrent.Wire.Checks.{commit_availability_order}
use browsertorrent.Wire.Transitions.{apply_remote_state}
use browsertorrent.Wire.Lifecycle.{touch_activity}

-- Bytes that have arrived behind those in the buffer.
abbrev pub arrived : List ℕ → Wire → Wire
arrived c w = record w { buffer = w.buffer ++ c }

abbrev extended_front : List ℕ → Front → Front
extended_front c incomplete = incomplete
extended_front c (keep_alive_frame rest) = keep_alive_frame (rest ++ c)
extended_front c too_long = too_long
extended_front c (frame n bytes rest) = frame n bytes (rest ++ c)

pub take-append_left {ℓ} :
    {A : Type ℓ} (n : ℕ) (xs ys : List A) → n ≤ length xs → take n (xs ++ ys) ≡ take n xs
take-append_left zero xs ys h = refl
take-append_left (suc n) [] ys h = absurd (omega arith)
take-append_left (suc n) (x ∷ xs) ys h = ap (◌∷◌ x) (take-append_left n xs ys (omega arith))

-- More bytes do not change what is read, once something is read.
split_frame-append :
    (limit n : ℕ) (rest c : List ℕ)
    → (split_frame limit n rest ≡ incomplete)
      ⊎ (split_frame limit n (rest ++ c) ≡ extended_front c (split_frame limit n rest))
split_frame-append limit n rest c = elim (Bool-cases (n == 0)) [
  | inl e ↦ inr (rw e refl)
  | inr e ↦ elim (Bool-cases (leb n limit)) [
    | inr e' ↦ inr (rw (e, e') refl)
    | inl e' ↦ elim (Bool-cases (leb n (length rest))) [
      | inr e'' ↦ inl (rw (e, e', e'') refl)
      | inl e'' ↦
          let h : n ≤ length rest = leb→le _ _ e'' in
          inr (
            rw
              (
                e,
                e',
                e'',
                le→leb n (length (rest ++ c)) (omega (arith, h, length-append rest c)),
                take-append_left n rest c h,
                drop-append_left n rest c h,
              )
              refl)
    ]
  ]
]

front-append :
    (limit : ℕ) (b c : List ℕ)
    → (front limit b ≡ incomplete) ⊎ (front limit (b ++ c) ≡ extended_front c (front limit b))
unfolding front
front-append limit (b1 ∷ b2 ∷ b3 ∷ b4 ∷ rest) c =
    split_frame-append limit (word32 b1 b2 b3 b4) rest c
front-append limit [] c = inl refl
front-append limit (b1 ∷ []) c = inl refl
front-append limit (b1 ∷ b2 ∷ []) c = inl refl
front-append limit (b1 ∷ b2 ∷ b3 ∷ []) c = inl refl

abbrev pub extended_round : List ℕ → Round → Round
extended_round c waiting = waiting
extended_round c (next w) = next (arrived c w)
extended_round c (failed e) = failed e

module _ (env : Environment) where
  dispatch-arrived :
      (p : Payload) (c : List ℕ) (w : Wire)
      → dispatch env p (arrived c w) ≡ arrived c (dispatch env p w)
  unfolding dispatch dispatch_extended
  dispatch-arrived (extended id bytes) c w = elim (Bool-cases (is_zero id)) [
    | inl e ↦ rw e (by_value (decode env.encode_text env.decode_text extended_options bytes))
    | inr e ↦ rw e refl
  ]
    where
      by_value :
          (o : Result DecodeError Value)
          → log (handle_extended id bytes) (emit_handshake (arrived c w) o)
            ≡ arrived c (log (handle_extended id bytes) (emit_handshake w o))
      by_value (err e) = refl
      by_value (ok v) = refl
  dispatch-arrived choke c w = refl
  dispatch-arrived unchoke c w = refl
  dispatch-arrived interested c w = refl
  dispatch-arrived not_interested c w = refl
  dispatch-arrived have_all c w = refl
  dispatch-arrived have_none c w = refl
  dispatch-arrived (have i) c w = refl
  dispatch-arrived (suggest_piece i) c w = refl
  dispatch-arrived (allowed_fast i) c w = refl
  dispatch-arrived (port p) c w = refl
  dispatch-arrived (bitfield bits) c w = refl
  dispatch-arrived (request r) c w = refl
  dispatch-arrived (cancel r) c w = refl
  dispatch-arrived (reject_request r) c w = refl
  dispatch-arrived (piece i b bs) c w = refl
  dispatch-arrived (unknown id bytes) c w = refl
  dispatch-arrived (hash_request r) c w = refl
  dispatch-arrived (hash_reject r) c w = refl
  dispatch-arrived (hashes r hs) c w = refl

apply_remote_state-arrived :
    (p : Payload) (c : List ℕ) (w : Wire)
    → apply_remote_state (arrived c w) (payload p) ≡ arrived c (apply_remote_state w (payload p))
unfolding apply_remote_state
apply_remote_state-arrived choke c w = refl
apply_remote_state-arrived unchoke c w = refl
apply_remote_state-arrived interested c w = refl
apply_remote_state-arrived not_interested c w = refl
apply_remote_state-arrived have_all c w = refl
apply_remote_state-arrived have_none c w = refl
apply_remote_state-arrived (extended id bytes) c w = refl
apply_remote_state-arrived (have i) c w = refl
apply_remote_state-arrived (suggest_piece i) c w = refl
apply_remote_state-arrived (allowed_fast i) c w = refl
apply_remote_state-arrived (port p) c w = refl
apply_remote_state-arrived (bitfield bits) c w = refl
apply_remote_state-arrived (request r) c w = refl
apply_remote_state-arrived (cancel r) c w = refl
apply_remote_state-arrived (reject_request r) c w = refl
apply_remote_state-arrived (piece i b bs) c w = refl
apply_remote_state-arrived (unknown id bytes) c w = refl
apply_remote_state-arrived (hash_request r) c w = refl
apply_remote_state-arrived (hash_reject r) c w = refl
apply_remote_state-arrived (hashes r hs) c w = refl

module _ (env : Environment) where
  accept-arrived :
      (w : Wire) (p : Payload) (n : ℕ) (rest c : List ℕ)
      → accept env (arrived c w) p n (rest ++ c) ≡ arrived c (accept env w p n rest)
  unfolding accept touch_activity
  accept-arrived w p n rest c =
      let w0 : Wire = record w {
        remote_availability = commit_availability_order w.remote_availability (payload p);
      } in
      let w1 : Wire = apply_remote_state w0 (payload p) in
      rw
        (
          apply_remote_state-arrived p c w0,
          dispatch-arrived env p c (record w1 { downloaded_bytes = w1.downloaded_bytes + (4 + n) }),
        )
        refl

  receive_message-arrived :
      (w : Wire) (n : ℕ) (bytes rest c : List ℕ)
      → round_of (receive_message env (arrived c w) n bytes (rest ++ c))
        ≡ extended_round c (round_of (receive_message env w n bytes rest))
  unfolding receive_message check_received
  receive_message-arrived w n bytes rest c = by_payload (decode_payload bytes)
    where
      checked :
          (p : Payload) (o : Result WireError (Unit {0}))
          → round_of (o >> ok (accept env (arrived c w) p n (rest ++ c)))
            ≡ extended_round c (round_of (o >> ok (accept env w p n rest)))
      checked p (err e) = refl
      checked p (ok u) = ap next (accept-arrived w p n rest c)

      by_payload :
          (o : Result Message.Error Payload)
          → round_of (
              of_codec o >>= λ p.
              check_received (arrived c w) (payload p)
              >> ok (accept env (arrived c w) p n (rest ++ c)))
            ≡ extended_round c (
                round_of
                  (of_codec o >>= λ p. check_received w (payload p) >> ok (accept env w p n rest)))
      by_payload (err e) = refl
      by_payload (ok p) = checked p (check_received w (payload p))

  on_front-arrived :
      (w : Wire) (f : Front) (c : List ℕ)
      → (on_front env w f ≡ waiting)
        ⊎ (on_front env (arrived c w) (extended_front c f) ≡ extended_round c (on_front env w f))
  unfolding touch_activity
  on_front-arrived w incomplete c = inl refl
  on_front-arrived w (keep_alive_frame rest) c = inr refl
  on_front-arrived w too_long c = inr refl
  on_front-arrived w (frame n bytes rest) c = inr (receive_message-arrived w n bytes rest c)

  -- A round that does something does the same when more bytes have arrived.
  round-arrived :
      (w : Wire) (c : List ℕ)
      → (round env w ≡ waiting) ⊎ (round env (arrived c w) ≡ extended_round c (round env w))
  unfolding round
  round-arrived w c = elim (front-append w.config.max_message_length w.buffer c) [
    | inl e ↦ inl (rw e refl)
    | inr e ↦ rw e (on_front-arrived w (front w.config.max_message_length w.buffer) c)
  ]

  pub round-arrived_of :
      (w : Wire) (c : List ℕ) (r : Round)
      → round env w ≡ r
      → r ≢ waiting
      → round env (arrived c w) ≡ extended_round c r
  round-arrived_of w c r e h = elim (round-arrived w c) [
    | inl q ↦ absurd (h (sym e ∙ q))
    | inr q ↦ q ∙ ap (extended_round c) e
  ]
