-- ===== src/Wire/Meeting.antt =====
-- Two wires exchange their handshakes.
use browsertorrent.Common.{
  ℕ, ◌≡◌, refl, sym, ap, ◌∙◌, inl, inr, Bool, true, false, none, List, [], ◌∷◌, ◌++◌, ok, length,
  take, replicate, Bool-cases, take_all, drop_all, ok-injective, arith,
}
use browsertorrent.Common.Words.{AllBytes-replicate}
use browsertorrent.Handshake.{
  HandshakeExtension, fast, extension_protocol, dht, v2, PeerHandshake, handshake_length,
  encode_handshake, decode_handshake, has_extension, set_extensions, enabled_among, all_extensions,
}
use browsertorrent.Handshake.Laws.{
  Named, set_extensions_lem, Named-enabled_among, Named-all_extensions,
}
use browsertorrent.Handshake.RoundTrip.{DecodesAscii, decode-encode_handshake}
use browsertorrent.Wire.{connected, Wire, is_closed, Environment}
use browsertorrent.Wire.Checks.{same_extension, has, remote_has}
use browsertorrent.Wire.Connect.{handshake_options}
use browsertorrent.Wire.Receive.{
  matches, handshake_done, receive_handshake, after_handshake, process_buffer, caught, on_data,
}
use browsertorrent.Wire.Cutting.{process_buffer_long}
use browsertorrent.Wire.Stability.{on_data_open}
use browsertorrent.Wire.Kept.{handshake_done_connects}
use browsertorrent.Wire.Exchange.{process_frames_empty}

-- The test of the wire's sets, and membership.
same_extension_refl : (e : HandshakeExtension) → same_extension e e ≡ true
same_extension_refl fast = refl
same_extension_refl extension_protocol = refl
same_extension_refl dht = refl
same_extension_refl v2 = refl

same_extension-eq : (x e : HandshakeExtension) → same_extension x e ≡ true → x ≡ e
same_extension-eq fast fast h = refl
same_extension-eq fast extension_protocol h = cc
same_extension-eq fast dht h = cc
same_extension-eq fast v2 h = cc
same_extension-eq extension_protocol fast h = cc
same_extension-eq extension_protocol extension_protocol h = refl
same_extension-eq extension_protocol dht h = cc
same_extension-eq extension_protocol v2 h = cc
same_extension-eq dht fast h = cc
same_extension-eq dht extension_protocol h = cc
same_extension-eq dht dht h = refl
same_extension-eq dht v2 h = cc
same_extension-eq v2 fast h = cc
same_extension-eq v2 extension_protocol h = cc
same_extension-eq v2 dht h = cc
same_extension-eq v2 v2 h = refl

has-Named : (xs : List HandshakeExtension) (e : HandshakeExtension) → Named e xs → has xs e ≡ true
has-Named [] e h = absurd h
has-Named (x ∷ xs) e (inl h) = rw (h, same_extension_refl e) refl
has-Named (x ∷ xs) e (inr h) = elim (Bool-cases (same_extension x e)) [
  | inl q ↦ rw q refl
  | inr q ↦ rw q (has-Named xs e h)
]

Named-has : (xs : List HandshakeExtension) (e : HandshakeExtension) → has xs e ≡ true → Named e xs
Named-has [] e h = absurd cc
Named-has (x ∷ xs) e h = elim (Bool-cases (same_extension x e)) [
  | inl q ↦ inl (same_extension-eq x e q)
  | inr q ↦ inr (Named-has xs e (rw q at h))
]

Bool-same : (a b : Bool) → (a ≡ true → b ≡ true) → (b ≡ true → a ≡ true) → a ≡ b
Bool-same true b h k = sym (h refl)
Bool-same false true h k = k refl
Bool-same false false h k = refl

-- The zeros of a handshake without reserved bytes name no extension.
zeros-has_extension : (e : HandshakeExtension) → has_extension (replicate 8 0) e ≡ false
unfolding has_extension
zeros-has_extension fast = refl
zeros-has_extension extension_protocol = refl
zeros-has_extension dht = refl
zeros-has_extension v2 = refl

-- The extensions that a handshake carries are the ones that the sender had.
carried :
    (es : List HandshakeExtension) (reserved : List ℕ) (e : HandshakeExtension)
    → set_extensions (replicate 8 0) es ≡ ok reserved
    → has (enabled_among reserved all_extensions) e ≡ has es e
carried es reserved e sets =
    let (r, sets', valid, on, off) =
      set_extensions_lem (replicate 8 0) es
        (record { size = refl; bytes = AllBytes-replicate 8 0 (omega arith) }) in
    let same : r ≡ reserved = ok-injective (sym sets' ∙ sets) in
    let (there, back) = Named-enabled_among reserved e all_extensions in
    Bool-same (has (enabled_among reserved all_extensions) e) (has es e)
      (λ h. elim (Bool-cases (has es e)) [
        | inl q ↦ q
        | inr q ↦
            let set = (there (Named-has (enabled_among reserved all_extensions) e h)).1 in
            let unset = off e (λ n. let x = has-Named es e n in absurd cc) in
            absurd (let y = zeros-has_extension e in let z = ap (λ b. has_extension b e) same in cc)
      ])
      (λ h. has-Named (enabled_among reserved all_extensions) e (
        back (
          Named-all_extensions e,
          ap (λ b. has_extension b e) (sym same) ∙ on e (Named-has es e h),
        )))

-- A wire that has sent its handshake and awaits that of a peer, whom it may expect by a hash and
-- an ID.
pub record Awaits (w : Wire) (info_hash peer_id : List ℕ) : Type 0 where
  pub live : is_closed w.state ≡ false
  pub sent : w.handshake_sent ≡ true
  pub not_received : w.handshake_received ≡ false
  pub empty : w.buffer ≡ []
  pub this_hash : matches w.config.expected_info_hash info_hash ≡ true
  pub this_peer : matches w.config.expected_peer_id peer_id ≡ true

module _ (env : Environment) (ascii : DecodesAscii env.decode_text) where
  receive_handshake_done :
      (w : Wire) (h : PeerHandshake)
      → decode_handshake env.decode_text (take handshake_length w.buffer) ≡ ok h
      → matches w.config.expected_info_hash h.info_hash ≡ true
      → matches w.config.expected_peer_id h.peer_id ≡ true
      → receive_handshake env w ≡ ok (handshake_done env w h)
  unfolding receive_handshake
  receive_handshake_done w h e this_hash this_peer = rw (e, this_hash, this_peer) refl

  -- The handshake of the one end connects the other and tells it the sender's extensions.
  pub handshake-on_data :
      (encode_text : List ℕ → List ℕ) (a b : Wire) (info_hash peer_id whole : List ℕ)
      → Awaits b info_hash peer_id
      → encode_handshake encode_text (handshake_options env a info_hash peer_id none) ≡ ok whole
      → let u = on_data env whole b in
        (u.state ≡ connected)
        × (u.config ≡ b.config)
        × ((e : HandshakeExtension)
            → remote_has u.remote_handshake e ≡ has a.config.local_extensions e)
  handshake-on_data encode_text a b info_hash peer_id whole waits e =
      let options = handshake_options env a info_hash peer_id none in
      let (size, h, decodes, same_hash, same_peer, sets, extensions) =
        decode-encode_handshake encode_text env.decode_text ascii options whole e in
      let loaded : Wire = record b { buffer = whole } in
      let read : receive_handshake env loaded ≡ ok (handshake_done env loaded h) =
        receive_handshake_done loaded h
          (ap (decode_handshake env.decode_text) (take_all handshake_length whole (omega arith))
            ∙ decodes)
          (ap (matches b.config.expected_info_hash) same_hash ∙ waits.this_hash)
          (ap (matches b.config.expected_peer_id) same_peer ∙ waits.this_peer) in
      let (state, phase, rest, config, peer) = handshake_done_connects env loaded h waits.sent in
      let done : Wire = handshake_done env loaded h in
      let nothing : done.buffer ≡ [] = rest ∙ drop_all handshake_length whole (omega arith) in
      let taken : on_data env whole b ≡ done =
        on_data_open env whole b waits.live
        ∙ ap (λ before. caught (process_buffer env (record b { buffer = before ++ whole })))
            waits.empty
        ∙ ap caught (
            process_buffer_long env loaded waits.not_received (omega arith)
            ∙ ap (after_handshake env loaded) read
            ∙ process_frames_empty env (length done.buffer) done (rw nothing (omega arith))) in
      (
        ap (λ u. u.state) taken ∙ state,
        ap (λ u. u.config) taken ∙ config,
        λ x.
            ap (λ u. remote_has u.remote_handshake x) taken
            ∙ ap (λ o. remote_has o x) peer
            ∙ ap (λ es. has es x) extensions
            ∙ carried a.config.local_extensions h.reserved x sets,
      )
