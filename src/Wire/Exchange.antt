-- ===== src/Wire/Exchange.antt =====
-- What one end sends is what the other receives.
use browsertorrent.Common.{
  ℕ, suc, ◌+◌, ◌-◌, ◌≤◌, ◌<◌, ◌≡◌, ◌≢◌, refl, sym, ap, ◌∙◌, true, false, Option, List, [], ◌∷◌,
  ◌++◌, ok, length, ◌==◌, le→leb, take_all, drop_all, arith,
}
use mathlib.Core.Path.{subst}
use browsertorrent.Common.Words.{uint32_bytes, word32_of_uint32}
use browsertorrent.Message.{Payload, payload, encode_payload, encode_message}
use browsertorrent.Message.RoundTrip.{IsDecodable, decode-encode_payload, encode_payload-ne-nil}
use browsertorrent.Wire.{send, WireConfig, Wire, returned, log, is_closed, Environment}
use browsertorrent.Wire.Send.{after_write, send_message}
use browsertorrent.Handshake.{PeerHandshake}
use browsertorrent.Wire.Checks.{is_request, commit_availability_order}
use browsertorrent.Wire.Transitions.{apply_remote_state}
use browsertorrent.Wire.Lifecycle.{touch_activity}
use browsertorrent.Wire.Shape.{dispatch_shape, apply_local_state_shape, apply_remote_state_shape}
use browsertorrent.Wire.Frames.{process_frames-enough, accept-buffer}
use browsertorrent.Wire.Cutting.{process_buffer_frames}
use browsertorrent.Wire.Stability.{on_data_open}
use browsertorrent.Wire.Pair.{Matching, Paired, applied-Mirrored, checks_matching}
use browsertorrent.Wire.Sent.{send_message-Sent}
use browsertorrent.Wire.Receive.{
  on_data, on_front, after_round, caught, process_buffer, frame, front, next, accept,
  receive_message, round, process_frames, check_received,
}

-- The bytes of a message that is encoded, as the reader at the other end finds them.
front-encode :
    (p : Payload) (bytes : List ℕ) (limit : ℕ)
    → encode_payload p ≡ ok bytes
    → length bytes ≤ limit
    → length bytes ≤ 4294967295
    → front limit (uint32_bytes (length bytes) ++ bytes) ≡ frame (length bytes) bytes []
unfolding front
front-encode p bytes limit e fits small =
    let n : ℕ = length bytes in
    let some_byte : (n == 0) ≡ false = not_empty bytes (encode_payload-ne-nil p e) in
    rw
      (
        word32_of_uint32 n small,
        some_byte,
        le→leb n limit fits,
        le→leb n n (omega arith),
        take_all n bytes (omega arith),
        drop_all n bytes (omega arith),
      )
      refl
  where
    not_empty : (bs : List ℕ) → bs ≢ [] → (length bs == 0) ≡ false
    not_empty [] h = absurd (h refl)
    not_empty (x ∷ xs) h = ground arith

Matching-moved :
    {c1 c2 d1 d2 : WireConfig} {h1 h2 k1 k2 : Option PeerHandshake}
    → c1 ≡ c2
    → h1 ≡ h2
    → d1 ≡ d2
    → k1 ≡ k2
    → Matching c1 h1 d1 k1
    → Matching c2 h2 d2 k2
Matching-moved {c1} {c2} {d1} {d2} {h1} {h2} {k1} {k2} e1 e2 e3 e4 m =
    subst (λ c. Matching c h2 d2 k2) e1
      (subst (λ h. Matching c1 h d2 k2) e2
        (subst (λ d. Matching c1 h1 d k2) e3 (subst (λ k. Matching c1 h1 d1 k) e4 m)))

module _ (env : Environment) where
  -- Both ends change alike.
  applied-Paired :
      (a b : Wire) (p : Payload) (n : ℕ) (rest whole : List ℕ)
      → Paired a b
      → Paired (after_write a (payload p) whole) (accept env b p n rest)
  unfolding after_write accept touch_activity
  applied-Paired a b p n rest whole pair =
      let a0 : Wire = record a {
        local_availability = commit_availability_order a.local_availability (payload p);
      } in
      let b0 : Wire = record b {
        remote_availability = commit_availability_order b.remote_availability (payload p);
      } in
      let b1 : Wire = apply_remote_state b0 (payload p) in
      let b2 : Wire = record b1 { downloaded_bytes = b1.downloaded_bytes + (4 + n) } in
      let sa = apply_local_state_shape a0 (payload p) in
      let sb = apply_remote_state_shape b0 p in
      let sd = dispatch_shape env b2 p in
      let (choking, interest, fast_set) = applied-Mirrored a0 b0 p pair.mirrored in
      record {
        matching =
            Matching-moved (sym (ap (λ u. u.config) sa)) (sym (ap (λ u. u.remote_handshake) sa))
              (sym (ap (λ u. u.config) sd ∙ ap (λ u. u.config) sb))
              (sym (ap (λ u. u.remote_handshake) sd ∙ ap (λ u. u.remote_handshake) sb))
              pair.matching;
        same_order =
            ap (λ u. u.local_availability) sa
            ∙ ap (λ v. commit_availability_order v (payload p)) pair.same_order
            ∙ sym (ap (λ u. u.remote_availability) sd ∙ ap (λ u. u.remote_availability) sb);
        mirrored = (
          choking ∙ sym (ap (λ u. u.peer_choking) sd),
          interest ∙ sym (ap (λ u. u.peer_interested) sd),
          fast_set ∙ sym (ap (λ u. u.remote_allowed_fast) sd),
        );
      }

  pub process_frames_empty :
      (n : ℕ) (w : Wire) → length w.buffer ≤ 0 → process_frames env n w ≡ returned w
  process_frames_empty n w h =
      process_frames-enough env n 0 w (omega arith) h ∙ unfold process_frames in refl

  -- The reader finds the message in the bytes of its frame, takes it and waits for more.
  round_delivers :
      (w : Wire) (p : Payload) (bytes : List ℕ)
      → w.buffer ≡ uint32_bytes (length bytes) ++ bytes
      → encode_payload p ≡ ok bytes
      → IsDecodable p
      → length bytes ≤ w.config.max_message_length
      → length bytes ≤ 4294967295
      → check_received w (payload p) ≡ ok tt
      → round env w ≡ next (accept env w p (length bytes) [])
  unfolding round receive_message
  round_delivers w p bytes whole e d fits small checked =
      ap (on_front env w) (
        ap (front w.config.max_message_length) whole
        ∙ front-encode p bytes w.config.max_message_length e fits small)
      ∙ rw (decode-encode_payload p d e, checked) refl

  frames_deliver :
      (w : Wire) (p : Payload) (bytes : List ℕ)
      → round env w ≡ next (accept env w p (length bytes) [])
      → process_frames env (length w.buffer) w ≡ returned (accept env w p (length bytes) [])
  frames_deliver w p bytes e =
      process_frames-enough env (length w.buffer) (suc (length w.buffer)) w (omega arith)
        (omega arith)
      ∙ unfold process_frames in
        ap (after_round env (process_frames env (length w.buffer)) w) e
        ∙ process_frames_empty (length w.buffer) (accept env w p (length bytes) [])
            (ap_length (accept-buffer env w p (length bytes) []))
    where
      ap_length : {xs : List ℕ} → xs ≡ [] → length xs ≤ 0
      ap_length q = rw q (omega arith)

  -- A message that one end sends, over a transport that delivers its bytes, is the message that
  -- the other end takes, whatever the message is but one of an unknown kind under a known number:
  -- the frame is handed to the transport, the other end applies the message and passes it on, and
  -- both ends agree on the flags, the allowed pieces and the order of availability as before. The
  -- other end is open, past the handshake and between two messages, has room for a request, and
  -- both belong to one torrent with the same extensions and limits below 4 GiB.
  pub send_message-on_data :
      (env' : Environment) (a a' b : Wire) (p : Payload)
      → Paired a b
      → IsDecodable p
      → a.config.max_message_length ≤ 4294967295
      → is_closed b.state ≡ false
      → b.handshake_received ≡ true
      → b.buffer ≡ []
      → (is_request (payload p) ≡ true → length b.peer_requests < b.config.max_pending_requests)
      → send_message env' (payload p) a ≡ returned a'
      → (bytes : List ℕ) × (encode_message (payload p) ≡ ok bytes)
        × (a' ≡ after_write (log (send bytes) a) (payload p) bytes)
        × (on_data env bytes b ≡ accept env (record b { buffer = bytes }) p (length bytes - 4) [])
        × Paired a' (on_data env bytes b)
  send_message-on_data env' a a' b p pair d small live greeted empty room sends =
      let sent = send_message-Sent env' a a' p sends in
      let n : ℕ = length sent.bytes in
      let bytes : List ℕ = uint32_bytes n ++ sent.bytes in
      let loaded : Wire = record b { buffer = bytes } in
      let a1 : Wire = log (send bytes) a in
      let seen : Paired a loaded = record {
        matching = pair.matching;
        same_order = pair.same_order;
        mirrored = pair.mirrored;
      } in
      let ready : Paired a1 loaded = record {
        matching = pair.matching;
        same_order = pair.same_order;
        mirrored = pair.mirrored;
      } in
      let checked = checks_matching a loaded p seen room sent.known sent.ordered sent.bounded in
      let fits : n ≤ loaded.config.max_message_length =
        omega (arith, sent.limited, pair.matching.accepts) in
      let size : n ≡ length bytes - 4 = omega arith in
      let taken : on_data env bytes b ≡ accept env loaded p n [] =
        on_data_open env bytes b live
        ∙ ap (λ before. caught (process_buffer env (record b { buffer = before ++ bytes }))) empty
        ∙ ap caught (
            process_buffer_frames env loaded greeted
            ∙ frames_deliver loaded p sent.bytes (
                round_delivers loaded p sent.bytes refl sent.encoded d fits
                  (omega (arith, sent.limited)) checked)) in
      (
        bytes,
        unfold encode_message in rw sent.encoded refl,
        sent.written_so,
        taken ∙ ap (λ k. accept env loaded p k []) size,
        subst (λ u. Paired u (on_data env bytes b)) (sym sent.written_so)
            (subst (Paired (after_write a1 (payload p) bytes)) (sym taken)
              (applied-Paired a1 loaded p n [] bytes ready)),
      )
