-- ===== src/Wire/Handshakes.antt =====
-- Two ends that greet each other.
use browsertorrent.Common.{
  ℕ, ◌≡◌, refl, sym, ap, ◌∙◌, inl, inr, Bool, true, false, ◌&&◌, none, List, [], ◌∷◌, ◌++◌, Result,
  ok, err, length, ◌==◌, Bool-cases, if-false,
}
use browsertorrent.Handshake
use browsertorrent.Handshake.{HandshakeExtension, encode_handshake}
use browsertorrent.Handshake.RoundTrip.{DecodesAscii}
use browsertorrent.Wire.{send, connected, WireConfig, Wire, returned, log, is_closed, Environment}
use browsertorrent.Wire.Checks.{has, remote_has, has_negotiated}
use browsertorrent.Wire.Connect.{
  handshake_options, send_handshake_bytes, send_handshake, try_transition_to_connected,
}
use browsertorrent.Wire.Receive.{matches, on_data}
use browsertorrent.Wire.Meeting.{Awaits, handshake-on_data}

-- A wire before any handshake, that may expect a peer by a hash and an ID.
pub record IsFresh (w : Wire) (info_hash peer_id : List ℕ) : Type 0 where
  pub live : is_closed w.state ≡ false
  pub not_received : w.handshake_received ≡ false
  pub empty : w.buffer ≡ []
  pub this_hash : matches w.config.expected_info_hash info_hash ≡ true
  pub this_peer : matches w.config.expected_peer_id peer_id ≡ true

module _ (env : Environment) where
  no_transition : (w : Wire) → w.handshake_received ≡ false → try_transition_to_connected env w ≡ w
  unfolding try_transition_to_connected
  no_transition w e =
      if-false (w.handshake_sent && w.handshake_received) _ _ (with_second w.handshake_sent e)
    where
      with_second : {b : Bool} (a : Bool) → b ≡ false → (a && b) ≡ false
      with_second true h = h
      with_second false h = refl

  handshake_bytes_returned :
      (w w' : Wire) (o : Result Handshake.Error (List ℕ))
      → w.handshake_received ≡ false
      → send_handshake_bytes env w o ≡ returned w'
      → (whole : List ℕ) × (o ≡ ok whole)
        × (w' ≡ record (log (send whole) w) { handshake_sent = true })
  handshake_bytes_returned w w' (err x) new e = absurd (let y = e in cc)
  handshake_bytes_returned w w' (ok bs) new e = elim (Bool-cases (env.transport_accepts bs)) [
    | inl q ↦
        let sent : Wire = record (log (send bs) w) { handshake_sent = true } in
        let returns : returned (try_transition_to_connected env sent) ≡ returned w' = rw q at e in
        let left : try_transition_to_connected env sent ≡ w' = cc in
        (bs, refl, sym left ∙ no_transition sent new)
    | inr q ↦ absurd (let y = rw q at e in cc)
  ]

  send_handshake_returned :
      (info_hash peer_id : List ℕ) (w w' : Wire)
      → w.handshake_received ≡ false
      → send_handshake env info_hash peer_id none w ≡ returned w'
      → (whole : List ℕ) × (encode_handshake env.encode_text
            (handshake_options env w info_hash peer_id none)
          ≡ ok whole)
        × (w' ≡ record (log (send whole) w) { handshake_sent = true })
  unfolding send_handshake
  send_handshake_returned info_hash peer_id w w' new e =
      elim (Bool-cases ((length info_hash == 20) && (length peer_id == 20))) [
        | inl q ↦
            handshake_bytes_returned w w'
              (encode_handshake env.encode_text (handshake_options env w info_hash peer_id none))
              new (rw q at e)
        | inr q ↦ absurd (let y = rw q at e in cc)
      ]

  -- A wire that has sent its handshake awaits that of the peer.
  sent-Awaits :
      (w : Wire) (whole info_hash peer_id : List ℕ)
      → IsFresh w info_hash peer_id
      → Awaits (record (log (send whole) w) { handshake_sent = true }) info_hash peer_id
  sent-Awaits w whole info_hash peer_id f = record {
    live = f.live;
    sent = refl;
    not_received = f.not_received;
    empty = f.empty;
    this_hash = f.this_hash;
    this_peer = f.this_peer;
  }

&&-comm : (a b : Bool) → (a && b) ≡ (b && a)
&&-comm true true = refl
&&-comm true false = refl
&&-comm false true = refl
&&-comm false false = refl

negotiated_known :
    (u : Wire) (e : HandshakeExtension) {c : WireConfig} {known : Bool}
    → u.config ≡ c
    → remote_has u.remote_handshake e ≡ known
    → has_negotiated u e ≡ (has c.local_extensions e && known)
negotiated_known u e {c} {known} q r =
    ap (λ x. has x.local_extensions e && remote_has u.remote_handshake e) q
    ∙ ap (λ x. has c.local_extensions e && x) r

-- Two fresh wires of one torrent that each send a handshake without reserved bytes, over
-- transports that deliver them, are both connected, and both hold an extension for negotiated
-- exactly if both had announced it; each expects the other, or nobody in particular, and of
-- `TextDecoder` it is assumed that it decodes ASCII bytes to themselves.
pub send_handshake-on_data :
    (env env' : Environment)
    → DecodesAscii env.decode_text
    → DecodesAscii env'.decode_text
    → (a a' b b' : Wire) (info_hash id id' : List ℕ) → IsFresh a info_hash id'
    → IsFresh b info_hash id
    → send_handshake env info_hash id none a ≡ returned a'
    → send_handshake env' info_hash id' none b ≡ returned b'
    → (bytes bytes' : List ℕ) × (a'.effects ≡ a.effects ++ (send bytes ∷ []))
      × (b'.effects ≡ b.effects ++ (send bytes' ∷ []))
      × ((on_data env bytes' a').state ≡ connected)
      × ((on_data env' bytes b').state ≡ connected)
      × ((e : HandshakeExtension)
          → (has_negotiated (on_data env bytes' a') e
              ≡ (has a.config.local_extensions e && has b.config.local_extensions e))
            × (has_negotiated (on_data env' bytes b') e
                ≡ (has a.config.local_extensions e && has b.config.local_extensions e)))
send_handshake-on_data env env' ascii ascii' a a' b b' info_hash id id' fa fb sa sb =
    let (bytes, ea, qa) = send_handshake_returned env info_hash id a a' fa.not_received sa in
    let (bytes', eb, qb) = send_handshake_returned env' info_hash id' b b' fb.not_received sb in
    let a1 : Wire = record (log (send bytes) a) { handshake_sent = true } in
    let b1 : Wire = record (log (send bytes') b) { handshake_sent = true } in
    let (a_state, a_config, a_known) =
      handshake-on_data env ascii env'.encode_text b a1 info_hash id' bytes'
        (sent-Awaits env a bytes info_hash id' fa) eb in
    let (b_state, b_config, b_known) =
      handshake-on_data env' ascii' env.encode_text a b1 info_hash id bytes
        (sent-Awaits env' b bytes' info_hash id fb) ea in
    (
      bytes,
      bytes',
      ap (λ w. w.effects) qa,
      ap (λ w. w.effects) qb,
      ap (λ w. (on_data env bytes' w).state) qa ∙ a_state,
      ap (λ w. (on_data env' bytes w).state) qb ∙ b_state,
      λ e. (
        ap (λ w. has_negotiated (on_data env bytes' w) e) qa
            ∙ negotiated_known (on_data env bytes' a1) e a_config (a_known e),
        ap (λ w. has_negotiated (on_data env' bytes w) e) qb
            ∙ negotiated_known (on_data env' bytes b1) e b_config (b_known e)
            ∙ &&-comm (has b.config.local_extensions e) (has a.config.local_extensions e),
      ),
    )
