-- ===== src/Message/Canonical.antt =====
-- `encodeMessage` writes back what `decodeMessage` read: every accepted frame is the one encoding
-- of its message.
use browsertorrent.Common.{
  ℕ, suc, ◌-◌, ◌%◌, ◌≤◌, ◌<◌, ◌≡◌, ◌≢◌, refl, sym, ap, ◌∙◌, ◌&&◌, true, false, Option, none, some,
  List, [], ◌∷◌, ◌++◌, arith, leb, ◌==◌, Result, ok, err, ◌>>=◌, guard, guard-eq-ok, >>=-eq-ok,
  ok-injective, length, take, drop, take-append-drop, length-drop, le→leb, leb→le, if◌then◌else◌,
  &&-eq-true, ==_iff, Bool-cases, inl, inr,
}
use browsertorrent.Common.Words.{
  nat, uint32_bytes, word16, AllBytes, AllBytes-append_left, word32_of_uint32, uint16_bytes-word16,
}
use browsertorrent.Message.{
  Error, protocol_error, PeerMessageId, message_id, Payload, BlockRequest, HashRequestFields,
  unchoke, interested, not_interested, cancel, suggest_piece, have_all, have_none, reject_request,
  allowed_fast, hash_reject, uint32_body, encode_block_request, PeerMessage, payload, keep_alive,
  choke, have, request, port, hash_request, max_uint32, is_net_port, as_uint32, encode_hash_request,
  encode_body, encode_payload, encode_message, read_uint16, get_uint32, assert_length, known_id,
  decode_uint32, decode_block_request, decode_hash_request, decode_body, decode_id, decode_payload,
  decode_message,
}
use browsertorrent.Message.Views
use mathlib.Core.Path.{subst}

known_id-eq-some : (n : ℕ) (k : PeerMessageId) → known_id n ≡ some k → n ≡ message_id k
unfolding known_id
known_id-eq-some n k h = ground arith

-- Port 0 is read, and not written.
abbrev WritesBack : ℕ → List ℕ → Result Error Payload → Type 0
WritesBack id body (ok p) = p ≢ port (nat 0) → encode_body p ≡ ok (id, body)
WritesBack id body (err _) = Unit {0}

WritesBack-bind :
    {A : Type 0} (id : ℕ) (body : List ℕ) (m : Result Error A) (f : A → Result Error Payload)
    → ((a : A) → m ≡ ok a → WritesBack id body (f a))
    → WritesBack id body (m >>= f)
WritesBack-bind id body (ok a) f h = h a refl
WritesBack-bind id body (err e) f h = tt

module _ (id : ℕ) (body : List ℕ) where
  flag-WritesBack :
      (p : Payload)
      → encode_body p ≡ ok (id, [])
      → WritesBack id body (assert_length body 0 >>= λ _. ok p)
  flag-WritesBack p h = WritesBack-bind id body (assert_length body 0) _ λ u e _.
      let empty : body ≡ [] = Views.nil_of_length body (Views.assert_length-eq-ok body 0 e) in
      h ∙ ap (λ t. ok (id, t)) (sym empty)

  module _ (bytes : AllBytes body) where
    number-WritesBack :
        (f : ℕ → Payload)
        → ((n : ℕ) → encode_body (f n) ≡ (uint32_body (nat n) >>= λ t. ok (id, t)))
        → WritesBack id body (decode_uint32 body >>= λ n. ok (f n))
    number-WritesBack f h =
        WritesBack-bind id body (decode_uint32 body) _
          λ n e _. h n ∙ rw (Views.encode-decode_uint32 body bytes e)

    block-WritesBack :
        (f : BlockRequest → Payload)
        → ((r : BlockRequest) → encode_body (f r) ≡ (encode_block_request r >>= λ t. ok (id, t)))
        → WritesBack id body (decode_block_request body >>= λ r. ok (f r))
    block-WritesBack f h =
        WritesBack-bind id body (decode_block_request body) _
          λ r e _. h r ∙ rw (Views.encode-decode_block_request body bytes e)

    hash-WritesBack :
        (f : HashRequestFields → Payload)
        → ((r : HashRequestFields)
            → encode_body (f r) ≡ (encode_hash_request r >>= λ t. ok (id, t)))
        → WritesBack id body (decode_hash_request body >>= λ r. ok (f r))
    hash-WritesBack f h =
        WritesBack-bind id body (decode_hash_request body) _
          λ r e _. h r ∙ rw (Views.encode-decode_hash_request body bytes e)

piece_bytes-WritesBack :
    (i b : ℕ) (block : List ℕ)
    → i ≤ max_uint32
    → b ≤ max_uint32
    → (let body = uint32_bytes i ++ (uint32_bytes b ++ block) in
        WritesBack 7 body (decode_body PeerMessageId.piece body))
unfolding decode_body encode_body as_uint32 get_uint32
piece_bytes-WritesBack i b block hi hb =
    let long = le→leb 8 (length (uint32_bytes i ++ (uint32_bytes b ++ block))) (omega arith) in
    rw (long, word32_of_uint32 i hi, word32_of_uint32 b hb)
      (λ _. rw (le→leb i max_uint32 hi, le→leb b max_uint32 hb))

piece-WritesBack :
    (body : List ℕ) → AllBytes body → WritesBack 7 body (decode_body PeerMessageId.piece body)
unfolding decode_body
piece-WritesBack body bytes =
    WritesBack-bind 7 body (guard (leb 8 (length body)) protocol_error) _ λ u test.
      let long = leb→le 8 (length body) (guard-eq-ok _ _ test) in
      let (i, r1, hi, b1, l1, e1) = Views.word_view body bytes (omega (arith, long)) in
      let (b, r2, hb, b2, l2, e2) = Views.word_view r1 b1 (omega (arith, long)) in
      let e : body ≡ uint32_bytes i ++ (uint32_bytes b ++ r2) =
        e1 ∙ ap (λ t. uint32_bytes i ++ t) e2 in
      let whole : WritesBack 7 body (decode_body PeerMessageId.piece body) =
        subst (λ t. WritesBack 7 t (decode_body PeerMessageId.piece t)) (sym e)
          (piece_bytes-WritesBack i b r2 hi hb) in
      rw (guard-eq-ok _ _ test) at whole

port-WritesBack :
    (body : List ℕ) → AllBytes body → WritesBack 9 body (decode_body PeerMessageId.port body)
unfolding decode_body encode_body assert_length read_uint16 is_net_port
port-WritesBack (a ∷ b ∷ []) bytes = λ not_zero.
    let small : leb (word16 a b) 65535 ≡ true = le→leb (word16 a b) 65535 (omega arith) in
    let some' : leb 1 (word16 a b) ≡ true = elim (Bool-cases (leb 1 (word16 a b))) [
      | inl e ↦ e
      | inr e ↦
          let z : word16 a b ≡ 0 = ground arith in absurd (not_zero (ap (λ t. port (nat t)) z))
    ] in
    rw (small, some') (ap (λ t. ok (9, t)) (uint16_bytes-word16 a b bytes.0 bytes.1.0))
port-WritesBack (a ∷ b ∷ c ∷ rest) bytes =
    let long : (suc (suc (suc (length rest))) == 2) ≡ false = ground arith in rw long tt
port-WritesBack _ bytes = tt

hashes-WritesBack :
    (body : List ℕ) → AllBytes body → WritesBack 22 body (decode_body PeerMessageId.hashes body)
unfolding decode_body encode_body
hashes-WritesBack body bytes =
    WritesBack-bind 22 body
      (guard (leb 80 (length body) && (((length body - 48) % 32) == 0)) protocol_error) _
      λ u test. WritesBack-bind 22 body (decode_hash_request (take 48 body)) _ λ r e _.
        let hs = drop 48 body in
        let tests =
          &&-eq-true (leb 80 (length body)) (((length body - 48) % 32) == 0)
            (guard-eq-ok _ _ test) in
        let whole : take 48 body ++ hs ≡ body = take-append-drop 48 body in
        let head : AllBytes (take 48 body) =
          AllBytes-append_left (take 48 body) hs (subst AllBytes (sym whole) bytes) in
        let big = leb→le 80 (length body) tests.0 in
        let enough : leb 32 (length hs) ≡ true =
          le→leb 32 (length hs) (omega (arith, length-drop 48 body)) in
        let multiple : ((length hs % 32) == 0) ≡ true = rw (length-drop 48 body) tests.1 in
        rw (enough, multiple, Views.encode-decode_hash_request (take 48 body) head e, whole)

extended-WritesBack :
    (body : List ℕ) → AllBytes body → WritesBack 20 body (decode_body PeerMessageId.extended body)
unfolding decode_body encode_body
extended-WritesBack [] bytes = tt
extended-WritesBack (id ∷ rest) bytes = λ _. rw (le→leb id 255 (omega arith))

decode_body-WritesBack :
    (k : PeerMessageId) (body : List ℕ)
    → AllBytes body
    → WritesBack (message_id k) body (decode_body k body)
unfolding decode_body encode_body
decode_body-WritesBack PeerMessageId.choke body bytes = flag-WritesBack 0 body choke refl
decode_body-WritesBack PeerMessageId.unchoke body bytes = flag-WritesBack 1 body unchoke refl
decode_body-WritesBack PeerMessageId.interested body bytes = flag-WritesBack 2 body interested refl
decode_body-WritesBack PeerMessageId.not_interested body bytes =
    flag-WritesBack 3 body not_interested refl
decode_body-WritesBack PeerMessageId.have body bytes =
    number-WritesBack 4 body bytes (λ n. have (nat n)) (λ n. refl)
decode_body-WritesBack PeerMessageId.bitfield body bytes = λ _. refl
decode_body-WritesBack PeerMessageId.request body bytes =
    block-WritesBack 6 body bytes request (λ r. refl)
decode_body-WritesBack PeerMessageId.piece body bytes = piece-WritesBack body bytes
decode_body-WritesBack PeerMessageId.cancel body bytes =
    block-WritesBack 8 body bytes cancel (λ r. refl)
decode_body-WritesBack PeerMessageId.port body bytes = port-WritesBack body bytes
decode_body-WritesBack PeerMessageId.suggest_piece body bytes =
    number-WritesBack 13 body bytes (λ n. suggest_piece (nat n)) (λ n. refl)
decode_body-WritesBack PeerMessageId.have_all body bytes = flag-WritesBack 14 body have_all refl
decode_body-WritesBack PeerMessageId.have_none body bytes = flag-WritesBack 15 body have_none refl
decode_body-WritesBack PeerMessageId.reject_request body bytes =
    block-WritesBack 16 body bytes reject_request (λ r. refl)
decode_body-WritesBack PeerMessageId.allowed_fast body bytes =
    number-WritesBack 17 body bytes (λ n. allowed_fast (nat n)) (λ n. refl)
decode_body-WritesBack PeerMessageId.extended body bytes = extended-WritesBack body bytes
decode_body-WritesBack PeerMessageId.hash_request body bytes =
    hash-WritesBack 21 body bytes hash_request (λ r. refl)
decode_body-WritesBack PeerMessageId.hashes body bytes = hashes-WritesBack body bytes
decode_body-WritesBack PeerMessageId.hash_reject body bytes =
    hash-WritesBack 23 body bytes hash_reject (λ r. refl)

decode_id-WritesBack :
    (id : ℕ) (body : List ℕ) (o : Option PeerMessageId)
    → known_id id ≡ o
    → id < 256
    → AllBytes body
    → WritesBack id body (decode_id o id body)
unfolding decode_id
decode_id-WritesBack id body (some k) e small bytes =
    subst (λ t. WritesBack t body (decode_body k body)) (sym (known_id-eq-some id k e))
      (decode_body-WritesBack k body bytes)
decode_id-WritesBack id body none e small bytes =
    λ _. unfold encode_body in rw (le→leb id 255 (omega arith))

-- Every payload of bytes that `decodeMessagePayload` accepts, but a `port` message of port 0, is
-- what `encodeMessagePayload` writes for the message that was read.
pub encode-decode_payload :
    (bytes : List ℕ) (p : Payload)
    → AllBytes bytes
    → p ≢ port (nat 0)
    → decode_payload bytes ≡ ok p
    → encode_payload p ≡ ok bytes
unfolding decode_payload encode_payload
encode-decode_payload [] p all not_zero h = cc
encode-decode_payload (id ∷ body) p all not_zero h =
    let back : WritesBack id body (ok p) =
      subst (WritesBack id body) h (decode_id-WritesBack id body _ refl all.0 all.1) in
    rw (back not_zero)

encode_message-frame :
    (n : ℕ) (rest : List ℕ) (m : PeerMessage)
    → n ≡ length rest
    → AllBytes rest
    → m ≢ payload (port (nat 0))
    → (if n == 0 then ok keep_alive else (decode_payload rest >>= λ p. ok (payload p))) ≡ ok m
    → encode_message m ≡ ok (uint32_bytes n ++ rest)
unfolding encode_message
encode_message-frame n rest m size all not_zero h = elim (Bool-cases (n == 0)) [
  | inl z ↦
      let none' : n ≡ 0 = (==_iff n 0).0 z in
      let empty : rest ≡ [] = Views.nil_of_length rest (omega arith) in
      let k : keep_alive ≡ m = ok-injective (rw z at h) in
      subst (λ t. encode_message t ≡ ok (uint32_bytes n ++ rest)) k (rw (none', empty))
  | inr nz ↦
      let (p, read, e) = >>=-eq-ok (decode_payload rest) (λ p. ok (payload p)) (rw nz at h) in
      let k : payload p ≡ m = ok-injective e in
      let back = encode-decode_payload rest p all (λ z. not_zero (sym k ∙ ap payload z)) read in
      subst (λ t. encode_message t ≡ ok (uint32_bytes n ++ rest)) k (rw (back, size))
]

-- Every frame of bytes that `decodeMessage` accepts, but that of a `port` message of port 0, is
-- what `encodeMessage` writes for the message that was read: a message has one frame.
pub encode-decode_message :
    (frame : List ℕ) (m : PeerMessage)
    → AllBytes frame
    → m ≢ payload (port (nat 0))
    → decode_message frame ≡ ok m
    → encode_message m ≡ ok frame
unfolding decode_message get_uint32
encode-decode_message frame m all not_zero h =
    let (u, test, h1) = >>=-eq-ok (guard (leb 4 (length frame)) protocol_error) _ h in
    let long = leb→le 4 (length frame) (guard-eq-ok _ _ test) in
    let (n, read, h2) = >>=-eq-ok (get_uint32 frame 0) _ h1 in
    let (v, exact, h3) = >>=-eq-ok (guard (n == length frame - 4) protocol_error) _ h2 in
    let size : n ≡ length frame - 4 = (==_iff n (length frame - 4)).0 (guard-eq-ok _ _ exact) in
    let (w, rest, hw, bytes, l, e) = Views.word_view frame all (omega (arith, long)) in
    let tail : drop 4 frame ≡ rest = ap (drop 4) e in
    let same : n ≡ w =
      ok-injective (sym read ∙ ap (λ t. get_uint32 t 0) e ∙ ap ok (word32_of_uint32 w hw)) in
    encode_message-frame n rest m (omega (arith, size, l)) bytes not_zero (
      subst
        (λ t. (if n == 0 then ok keep_alive else (decode_payload t >>= λ p. ok (payload p))) ≡ ok m)
        tail h3)
    ∙ ap (λ t. ok (uint32_bytes t ++ rest)) same
    ∙ ap ok (sym e)
