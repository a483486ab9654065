-- ===== src/Handshake/RoundTrip.antt =====
-- `encodeHandshake` and `decodeHandshake` undo one another. Of `TextDecoder` it is assumed that
-- ASCII bytes decode to themselves, and that only they decode to an ASCII text of their number.
use browsertorrent.Common.{
  ℕ, ◌<◌, ◌≡◌, refl, sym, ap, ◌∙◌, true, ◌&&◌, some, List, [], ◌∷◌, ◌++◌, arith, ◌==◌, ==_iff,
  &&-eq-true, ok, >>=-eq-ok, ok-injective, guard, guard-eq-ok, length, take, drop, get_or,
  length-append, length-set, length-take, length-drop, take-append, drop-append, take-append-drop,
  drop-drop, take_all, list_eq, list_eq→eq,
}
use browsertorrent.Common.Words.{AllBytes, AllBytes-take, AllBytes-drop}
use browsertorrent.Handshake.{
  protocol_error, range_error, HandshakeExtension, bittorrent_protocol, handshake_length,
  PeerHandshake, bytes, EncodeHandshakeOptions, set_extension, extension_byte, assert_twenty_bytes,
  set_extensions, all_extensions, enabled_among, reserved_or_zero, peer_id_bytes, encode_handshake,
  decode_handshake,
}
use browsertorrent.Handshake.Laws.{IsReserved, set_extension-eq-ok, set_extensions-enabled_among}
use mathlib.Core.Path.{subst, ap₂}

abbrev pub AllAscii : List ℕ → Type 0
AllAscii [] = Unit {0}
AllAscii (c ∷ cs) = (c < 128) × AllAscii cs

-- The assumptions on `TextDecoder`.
pub record DecodesAscii (decode_text : List ℕ → List ℕ) : Type 0 where
  pub forth : (bs : List ℕ) → AllAscii bs → decode_text bs ≡ bs
  pub back : (bs t : List ℕ) → AllAscii t → length bs ≡ length t → decode_text bs ≡ t → bs ≡ t

abbrev frame_of : List ℕ → List ℕ → List ℕ → List ℕ
frame_of reserved info_hash peer_id =
    length bittorrent_protocol ∷ (bittorrent_protocol ++ (reserved ++ (info_hash ++ peer_id)))

set_extensions-length :
    (r r' : List ℕ) (es : List HandshakeExtension)
    → length r ≡ 8
    → set_extensions r es ≡ ok r'
    → length r' ≡ 8
unfolding set_extensions
set_extensions-length r r' [] h e = ap length (sym (ok-injective e)) ∙ h
set_extensions-length r r' (x ∷ xs) h e =
    let (r1, set1, sets) = >>=-eq-ok (set_extension r x true) _ e in
    let written = ok-injective (sym set1 ∙ set_extension-eq-ok r x true h) in
    set_extensions-length r1 r' xs (ap length written ∙ length-set r (extension_byte x) _ ∙ h) sets

module _ (encode_text decode_text : List ℕ → List ℕ) (ascii : DecodesAscii decode_text) where
  decode_handshake-frame :
      (reserved info_hash peer_id : List ℕ)
      → length reserved ≡ 8
      → length info_hash ≡ 20
      → length peer_id ≡ 20
      → decode_handshake decode_text (frame_of reserved info_hash peer_id)
        ≡ ok (record {
          info_hash = info_hash;
          peer_id = peer_id;
          reserved = reserved;
          extensions = enabled_among reserved all_extensions;
        })
  unfolding decode_handshake
  decode_handshake-frame reserved info_hash peer_id hr hi hp =
      let total : length (reserved ++ (info_hash ++ peer_id)) ≡ 48 =
        omega
          (arith, length-append reserved (info_hash ++ peer_id), length-append info_hash peer_id) in
      rw (
        total,
        ascii.forth bittorrent_protocol (omega arith),
        drop-append reserved (info_hash ++ peer_id) 0 8 (omega arith),
        drop-append reserved (info_hash ++ peer_id) 20 28 (omega arith),
        drop-append info_hash peer_id 0 20 (omega arith),
        take-append info_hash peer_id 20 (omega arith),
        take_all 20 peer_id (omega arith),
        take-append reserved (info_hash ++ peer_id) 8 (omega arith),
      )

  -- With a text decoder that is the identity on ASCII and makes ASCII of nothing else: the bytes
  -- that `encodeHandshake` returns are 68, and `decodeHandshake` makes of them the hash and the peer
  -- ID that were given, the reserved bytes with the extensions set, and the extensions that are on
  -- in these.
  pub decode-encode_handshake :
      (o : EncodeHandshakeOptions) (frame : List ℕ)
      → encode_handshake encode_text o ≡ ok frame
      → (length frame ≡ handshake_length)
        × (h : PeerHandshake) × (decode_handshake decode_text frame ≡ ok h)
        × (h.info_hash ≡ o.info_hash)
        × (h.peer_id ≡ peer_id_bytes encode_text o.peer_id)
        × (set_extensions (reserved_or_zero o.reserved) o.extensions ≡ ok h.reserved)
        × (h.extensions ≡ enabled_among h.reserved all_extensions)
  unfolding encode_handshake assert_twenty_bytes
  decode-encode_handshake o frame e =
      let info_hash = o.info_hash in
      let peer_id = peer_id_bytes encode_text o.peer_id in
      let zero_or = reserved_or_zero o.reserved in
      let (u, t1, e1) = >>=-eq-ok (assert_twenty_bytes info_hash) _ e in
      let (v, t2, e2) = >>=-eq-ok (assert_twenty_bytes peer_id) _ e1 in
      let (w, t3, e3) = >>=-eq-ok (guard (length zero_or == 8) range_error) _ e2 in
      let (reserved, sets, e4) = >>=-eq-ok (set_extensions zero_or o.extensions) _ e3 in
      let hi : length info_hash ≡ 20 = (==_iff _ _).0 (guard-eq-ok _ _ t1) in
      let hp : length peer_id ≡ 20 = (==_iff _ _).0 (guard-eq-ok _ _ t2) in
      let hz : length zero_or ≡ 8 = (==_iff _ _).0 (guard-eq-ok _ _ t3) in
      let hr : length reserved ≡ 8 = set_extensions-length zero_or reserved o.extensions hz sets in
      let f : frame_of reserved info_hash peer_id ≡ frame = ok-injective e4 in
      (
        ap length (sym f)
            ∙ omega (
              arith,
              length-append reserved (info_hash ++ peer_id),
              length-append info_hash peer_id,
            ),
        record {
          info_hash = info_hash;
          peer_id = peer_id;
          reserved = reserved;
          extensions = enabled_among reserved all_extensions;
        },
        ap (decode_handshake decode_text) (sym f)
            ∙ decode_handshake-frame reserved info_hash peer_id hr hi hp,
        refl,
        refl,
        sets,
        refl,
      )

frame_parts :
    (frame : List ℕ)
    → length frame ≡ 68
    → get_or frame 0 0 ≡ 19
    → take 19 (drop 1 frame) ≡ bittorrent_protocol
    → frame ≡ frame_of (take 8 (drop 20 frame)) (take 20 (drop 28 frame)) (take 20 (drop 48 frame))
frame_parts [] size first protocol = absurd (omega arith)
frame_parts (x ∷ rest) size first protocol =
    let d : List ℕ = drop 19 rest in
    let inner : List ℕ = drop 27 rest in
    let last : List ℕ = drop 47 rest in
    let e1 : rest ≡ bittorrent_protocol ++ d =
      sym (take-append-drop 19 rest) ∙ ap (λ t. t ++ d) protocol in
    let e2 : d ≡ take 8 d ++ inner =
      sym (take-append-drop 8 d) ∙ ap (λ t. take 8 d ++ t) (drop-drop 19 8 27 rest (omega arith)) in
    let e3 : inner ≡ take 20 inner ++ last =
      sym (take-append-drop 20 inner)
      ∙ ap (λ t. take 20 inner ++ t) (drop-drop 27 20 47 rest (omega arith)) in
    let e4 : last ≡ take 20 last = sym (take_all 20 last (omega (arith, length-drop 47 rest))) in
    ap₂ ◌∷◌ first (
      e1
      ∙ ap (λ t. bittorrent_protocol ++ t)
          (e2 ∙ ap (λ t. take 8 d ++ t) (e3 ∙ ap (λ t. take 20 inner ++ t) e4)))

module _ (encode_text decode_text : List ℕ → List ℕ) (ascii : DecodesAscii decode_text) where
  abbrev options_of : PeerHandshake → EncodeHandshakeOptions
  options_of h = record {
    info_hash = h.info_hash;
    peer_id = bytes h.peer_id;
    reserved = some h.reserved;
    extensions = h.extensions;
  }

  encode_slices :
      (frame : List ℕ)
      → length frame ≡ 68
      → AllBytes frame
      → (let reserved = take 8 (drop 20 frame) in
          let info_hash = take 20 (drop 28 frame) in
          let peer_id = take 20 (drop 48 frame) in
          encode_handshake encode_text (record {
            info_hash = info_hash;
            peer_id = bytes peer_id;
            reserved = some reserved;
            extensions = enabled_among reserved all_extensions;
          })
          ≡ ok (frame_of reserved info_hash peer_id))
  unfolding encode_handshake assert_twenty_bytes
  encode_slices frame size all =
      let reserved : List ℕ = take 8 (drop 20 frame) in
      let hr : length reserved ≡ 8 =
        length-take 8 (drop 20 frame) ∙ omega (arith, length-drop 20 frame, size) in
      let hi : length (take 20 (drop 28 frame)) ≡ 20 =
        length-take 20 (drop 28 frame) ∙ omega (arith, length-drop 28 frame, size) in
      let hp : length (take 20 (drop 48 frame)) ≡ 20 =
        length-take 20 (drop 48 frame) ∙ omega (arith, length-drop 48 frame, size) in
      let v : IsReserved reserved = record {
        size = hr;
        bytes = AllBytes-take 8 (drop 20 frame) (AllBytes-drop 20 frame all);
      } in
      rw (hi, hp, hr, set_extensions-enabled_among reserved all_extensions v)

  -- With a text decoder that is the identity on ASCII and makes ASCII of nothing else: every frame
  -- of bytes that `decodeHandshake` accepts is what `encodeHandshake` writes for the handshake that
  -- was read.
  pub encode-decode_handshake :
      (frame : List ℕ) (h : PeerHandshake)
      → AllBytes frame
      → decode_handshake decode_text frame ≡ ok h
      → encode_handshake encode_text (options_of h) ≡ ok frame
  unfolding decode_handshake
  encode-decode_handshake frame h all e =
      let (u, t1, e1) = >>=-eq-ok (guard (length frame == handshake_length) protocol_error) _ e in
      let size : length frame ≡ 68 = (==_iff _ _).0 (guard-eq-ok _ _ t1) in
      let first : ℕ = get_or frame 0 0 in
      let (v, t2, e2) =
        >>=-eq-ok
          (guard
            ((first == length bittorrent_protocol)
              && list_eq (decode_text (take first (drop 1 frame))) bittorrent_protocol)
            protocol_error)
          _ e1 in
      let (f, p) =
        &&-eq-true (first == 19)
          (list_eq (decode_text (take first (drop 1 frame))) bittorrent_protocol)
          (guard-eq-ok _ _ t2) in
      let nineteen : first ≡ 19 = (==_iff _ _).0 f in
      let read : decode_text (take 19 (drop 1 frame)) ≡ bittorrent_protocol =
        ap (λ t. decode_text (take t (drop 1 frame))) (sym nineteen) ∙ list_eq→eq _ _ p in
      let protocol : take 19 (drop 1 frame) ≡ bittorrent_protocol =
        ascii.back (take 19 (drop 1 frame)) bittorrent_protocol (omega arith)
          (length-take 19 (drop 1 frame) ∙ omega (arith, length-drop 1 frame, size)) read in
      let whole = frame_parts frame size nineteen protocol in
      subst (λ t. encode_handshake encode_text (options_of t) ≡ ok frame) (ok-injective e2)
        (encode_slices frame size all ∙ ap ok (sym whole))
