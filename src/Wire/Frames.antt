-- ===== src/Wire/Frames.antt =====
-- The loop of `_processBuffer`: it ends, and how the bytes arrive makes no difference to it.
use browsertorrent.Common.{
  ℕ, zero, suc, ◌+◌, ◌≤◌, ◌≡◌, refl, ◌∙◌, ◌⊎◌, inl, inr, List, [], ◌∷◌, ◌++◌, Result, ok, err,
  ◌>>=◌, ◌>>◌, length, leb, ◌==◌, arith, Bool-cases, length-append, length-drop,
}
use mathlib.Core.Path.{subst}
use browsertorrent.Common.Words.{word32}
use browsertorrent.Message
use browsertorrent.Message.{Payload, payload, decode_payload}
use browsertorrent.Wire.{WireError, Wire, Outcome, returned, thrown, Environment}
use browsertorrent.Wire.Receive.{
  Front, incomplete, keep_alive_frame, too_long, frame, split_frame, front, Round, waiting, next,
  failed, accept, receive_message, on_front, round, process_frames, check_received, round_of,
  of_codec,
}
use browsertorrent.Wire.Lifecycle.{touch_activity}
use browsertorrent.Wire.Chunks.{arrived, round-arrived_of}

abbrev FrontWithin : ℕ → Front → Type 0
FrontWithin n incomplete = Unit {0}
FrontWithin n (keep_alive_frame rest) = length rest + 4 ≤ n
FrontWithin n too_long = Unit {0}
FrontWithin n (frame k bytes rest) = length rest + 4 ≤ n

split_frame-within :
    (limit n : ℕ) (rest : List ℕ) → FrontWithin (length rest + 4) (split_frame limit n rest)
split_frame-within limit n rest = elim (Bool-cases (n == 0)) [
  | inl e ↦ rw e (omega arith)
  | inr e ↦ elim (Bool-cases (leb n limit)) [
    | inr e' ↦ rw (e, e') tt
    | inl e' ↦ elim (Bool-cases (leb n (length rest))) [
      | inr e'' ↦ rw (e, e', e'') tt
      | inl e'' ↦ rw (e, e', e'') (omega (arith, length-drop n rest))
    ]
  ]
]

front-within : (limit : ℕ) (b : List ℕ) → FrontWithin (length b) (front limit b)
unfolding front
front-within limit (b1 ∷ b2 ∷ b3 ∷ b4 ∷ rest) =
    subst (λ k. FrontWithin k (split_frame limit (word32 b1 b2 b3 b4) rest)) (omega arith)
      (split_frame-within limit (word32 b1 b2 b3 b4) rest)
front-within limit [] = tt
front-within limit (b1 ∷ []) = tt
front-within limit (b1 ∷ b2 ∷ []) = tt
front-within limit (b1 ∷ b2 ∷ b3 ∷ []) = tt

pub Round-cases :
    (r : Round) → (r ≡ waiting) ⊎ (((w : Wire) × (r ≡ next w)) ⊎ ((e : WireError) × (r ≡ failed e)))
Round-cases waiting = inl refl
Round-cases (next w) = inr (inl (w, refl))
Round-cases (failed e) = inr (inr (e, refl))

abbrev RoundWithin : ℕ → Round → Type 0
RoundWithin n waiting = Unit {0}
RoundWithin n (next w) = length w.buffer + 4 ≤ n
RoundWithin n (failed e) = Unit {0}

module _ (env : Environment) where
  pub accept-buffer :
      (w : Wire) (p : Payload) (n : ℕ) (rest : List ℕ) → (accept env w p n rest).buffer ≡ rest
  unfolding accept touch_activity
  accept-buffer w p n rest = refl

  receive_message-within :
      (w : Wire) (k n : ℕ) (bytes rest : List ℕ)
      → length rest + 4 ≤ k
      → RoundWithin k (round_of (receive_message env w n bytes rest))
  unfolding receive_message
  receive_message-within w k n bytes rest h = by_payload (decode_payload bytes)
    where
      checked :
          (p : Payload) (o : Result WireError (Unit {0}))
          → RoundWithin k (round_of (o >> ok (accept env w p n rest)))
      checked p (err e) = tt
      checked p (ok u) = rw (accept-buffer w p n rest) h

      by_payload :
          (o : Result Message.Error Payload)
          → RoundWithin k (
              round_of
                (of_codec o >>= λ p. check_received w (payload p) >> ok (accept env w p n rest)))
      by_payload (err e) = tt
      by_payload (ok p) = checked p (check_received w (payload p))

  -- Every round that goes on takes four bytes at least from the buffer.
  pub round-within : (w : Wire) → RoundWithin (length w.buffer) (round env w)
  unfolding round touch_activity
  round-within w =
      by_front (front w.config.max_message_length w.buffer)
        (front-within w.config.max_message_length w.buffer)
    where
      by_front :
          (f : Front)
          → FrontWithin (length w.buffer) f
          → RoundWithin (length w.buffer) (on_front env w f)
      by_front incomplete h = tt
      by_front (keep_alive_frame rest) h = h
      by_front too_long h = tt
      by_front (frame n bytes rest) h = receive_message-within w (length w.buffer) n bytes rest h

  round-next-within : (w w' : Wire) → round env w ≡ next w' → length w'.buffer + 4 ≤ length w.buffer
  round-next-within w w' e = rw e at (round-within w)

  -- An empty buffer holds no frame.
  round_empty : (w : Wire) → length w.buffer ≤ 0 → round env w ≡ waiting
  unfolding round front
  round_empty w h = by_buffer w.buffer h
    where
      by_buffer :
          (b : List ℕ)
          → length b ≤ 0
          → on_front env w (front w.config.max_message_length b) ≡ waiting
      by_buffer [] h = refl
      by_buffer (x ∷ xs) h = absurd (omega arith)

  -- Fuel for the bytes of the buffer is enough: more of it changes nothing.
  pub process_frames-enough :
      (n k : ℕ) (w : Wire)
      → length w.buffer ≤ n
      → length w.buffer ≤ k
      → process_frames env n w ≡ process_frames env k w
  unfolding process_frames
  process_frames-enough zero zero w hn hk = refl
  process_frames-enough zero (suc k) w hn hk = rw (round_empty w hn) refl
  process_frames-enough (suc n) zero w hn hk = rw (round_empty w hk) refl
  process_frames-enough (suc n) (suc k) w hn hk = elim (Round-cases (round env w)) [
    | inl e ↦ rw e refl
    | inr (inl (w', e)) ↦
        let shorter : length w'.buffer + 4 ≤ length w.buffer = round-next-within w w' e in
        rw e (process_frames-enough n k w' (omega arith) (omega arith))
    | inr (inr (x, e)) ↦ rw e refl
  ]

  abbrev pub IsQuiet : Outcome → Type 0
  IsQuiet (returned w) = round env w ≡ waiting
  IsQuiet (thrown e w) = round env w ≡ failed e

  -- The loop ends: it leaves a wire whose buffer holds no complete message, or one that throws.
  pub process_frames-IsQuiet :
      (n : ℕ) (w : Wire) → length w.buffer ≤ n → IsQuiet (process_frames env n w)
  unfolding process_frames
  process_frames-IsQuiet zero w h = round_empty w h
  process_frames-IsQuiet (suc n) w h = elim (Round-cases (round env w)) [
    | inl e ↦ rw e (rw e refl)
    | inr (inl (w', e)) ↦
        let shorter : length w'.buffer + 4 ≤ length w.buffer = round-next-within w w' e in
        rw e (process_frames-IsQuiet n w' (omega arith))
    | inr (inr (x, e)) ↦ rw e (rw e refl)
  ]

  -- What the loop goes on with when bytes arrive after it ended.
  abbrev pub resumed : List ℕ → Outcome → Outcome
  resumed c (returned w) = process_frames env (length (w.buffer ++ c)) (arrived c w)
  resumed c (thrown e w) = thrown e (arrived c w)

  pub process_frames-arrived :
      (n : ℕ) (w : Wire) (c : List ℕ)
      → length w.buffer ≤ n
      → process_frames env (length (w.buffer ++ c)) (arrived c w)
        ≡ resumed c (process_frames env n w)
  unfolding process_frames
  process_frames-arrived zero w c h = refl
  process_frames-arrived (suc n) w c h =
      let more : ℕ = length (w.buffer ++ c) in
      let one_round : process_frames env more (arrived c w)
          ≡ process_frames env (suc more) (arrived c w) =
        process_frames-enough more (suc more) (arrived c w) (omega arith) (omega arith) in
      elim (Round-cases (round env w)) [
        | inl e ↦ rw e refl
        | inr (inl (w', e)) ↦
            let shorter : length w'.buffer + 4 ≤ length w.buffer = round-next-within w w' e in
            one_round
            ∙ rw (e, round-arrived_of env w c (next w') e (λ q. cc))
                (process_frames-enough more (length (w'.buffer ++ c)) (arrived c w')
                    (omega (arith, length-append w'.buffer c, length-append w.buffer c))
                    (omega arith)
                  ∙ process_frames-arrived n w' c (omega arith))
        | inr (inr (x, e)) ↦
            one_round ∙ rw (e, round-arrived_of env w c (failed x) e (λ q. cc)) refl
      ]
