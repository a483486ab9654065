-- ===== src/Message/RoundTrip.antt =====
-- `decodeMessage` reads back what `encodeMessage` wrote.
use browsertorrent.Common.{
  ℕ, suc, ◌+◌, ◌-◌, ◌%◌, ◌≤◌, ◌<◌, ◌≡◌, refl, sym, ap, ◌∙◌, ◌≢◌, ◌&&◌, none, List, [], ◌∷◌, ◌++◌,
  arith, leb, ◌==◌, Result, ok, err, ◌>>=◌, guard, guard-eq-ok, >>=-eq-ok, ok-injective, length,
  false, length-append, drop-append, take-append, leb→le, le→leb, &&-eq-true, ==_iff, true,
}
use browsertorrent.Common.Words.{
  Number, nat, negative, fraction, not_a_number, is_uint, to_nat, uint32_bytes, word32_of_uint32,
  word16_of_uint16,
}
use browsertorrent.Message.{
  Error, range_error, Payload, PeerMessage, payload, keep_alive, HashRequestFields, choke, unchoke,
  interested, not_interested, have, bitfield, request, piece, cancel, port, suggest_piece, have_all,
  have_none, reject_request, allowed_fast, extended, hash_request, hashes, hash_reject, unknown,
  max_uint32, is_net_port, as_uint32, uint32_body, encode_block_request, encode_hash_request,
  encode_body, encode_payload, encode_message, read_uint16, assert_length, get_uint32, known_id,
  decode_hash_request, decode_body, decode_id, decode_payload, decode_message,
}
use browsertorrent.Message.Fields
use mathlib.Core.Path.{subst}

-- An unknown message whose ID is that of a known one is read as the known one.
abbrev pub IsDecodable : Payload → Type 0
IsDecodable (unknown id _) = known_id (to_nat id) ≡ none
IsDecodable _ = Unit {0}

abbrev ReadsBack : Payload → Result Error (ℕ × List ℕ) → Type 0
ReadsBack p (ok (id, body)) = decode_payload (id ∷ body) ≡ ok p
ReadsBack p (err _) = Unit {0}

ReadsBack-bind :
    {A : Type 0} (p : Payload) (m : Result Error A) (f : A → Result Error (ℕ × List ℕ))
    → ((a : A) → m ≡ ok a → ReadsBack p (f a))
    → ReadsBack p (m >>= f)
ReadsBack-bind p (ok a) f h = h a refl
ReadsBack-bind p (err e) f h = tt

as_uint32-eq-ok : (v : Number) {n : ℕ} → as_uint32 v ≡ ok n → (v ≡ nat n) × (n ≤ max_uint32)
unfolding as_uint32
as_uint32-eq-ok (nat n) h = ground arith
as_uint32-eq-ok (negative n) h = cc
as_uint32-eq-ok (fraction n mark) h = cc
as_uint32-eq-ok not_a_number h = cc

piece-ReadsBack :
    (i b : Number) (block : List ℕ) → ReadsBack (piece i b block) (encode_body (piece i b block))
unfolding encode_body decode_payload decode_id decode_body known_id get_uint32
piece-ReadsBack i b block = ReadsBack-bind _ (as_uint32 i) _ λ i' ei.
    ReadsBack-bind _ (as_uint32 b) _ λ b' eb.
      let (vi, hi) = as_uint32-eq-ok i ei in
      let (vb, hb) = as_uint32-eq-ok b eb in
      let long = le→leb 8 (length (uint32_bytes i' ++ (uint32_bytes b' ++ block))) (omega arith) in
      rw (word32_of_uint32 i' hi, word32_of_uint32 b' hb, vi, vb, long)

hashes-ReadsBack :
    (r : HashRequestFields) (hs : List ℕ) → ReadsBack (hashes r hs) (encode_body (hashes r hs))
unfolding encode_body decode_payload decode_id decode_body known_id
hashes-ReadsBack r hs =
    ReadsBack-bind _ (guard (leb 32 (length hs) && ((length hs % 32) == 0)) range_error) _ λ u test.
      ReadsBack-bind _ (encode_hash_request r) _ λ body e.
        let (valid, written) = Fields.encode_hash_request-eq-ok r e in
        let tests =
          &&-eq-true (leb 32 (length hs)) ((length hs % 32) == 0) (guard-eq-ok _ _ test) in
        let whole : ((length hs % 32) == 0) ≡ true = tests.1 in
        let n : length body ≡ 48 =
          ap length written ∙ Fields.length-hash_request_bytes r valid.root in
        let total : length (body ++ hs) ≡ 48 + length hs =
          omega (arith, length-append body hs, n) in
        let fits : (leb 80 (length (body ++ hs)) && (((length (body ++ hs) - 48) % 32) == 0))
            ≡ true =
          rw total (ground (arith, leb→le 32 (length hs) tests.0)) in
        rw (
          fits,
          take-append body hs 48 (sym n),
          drop-append body hs 0 48 (omega (arith, n)),
          written,
          Fields.decode_hash_request-bytes r valid,
        )

hash_request-ReadsBack :
    (r : HashRequestFields) {body : List ℕ}
    → encode_hash_request r ≡ ok body
    → decode_hash_request body ≡ ok r
hash_request-ReadsBack r e =
    let (valid, written) = Fields.encode_hash_request-eq-ok r e in
    rw written (Fields.decode_hash_request-bytes r valid)

port-ReadsBack : (p : Number) → ReadsBack (port p) (encode_body (port p))
unfolding encode_body decode_payload decode_id decode_body known_id assert_length read_uint16
    is_net_port
port-ReadsBack p = ReadsBack-bind _ (guard (is_net_port p) range_error) _ λ u e.
    let (v, h) = Fields.is_uint_nat 65535 p (&&-eq-true _ _ (guard-eq-ok _ _ e)).0 in
    rw (word16_of_uint16 (to_nat p) h, v)

encode_body-ReadsBack : (p : Payload) → IsDecodable p → ReadsBack p (encode_body p)
unfolding encode_body decode_payload decode_id decode_body known_id assert_length
encode_body-ReadsBack choke d = refl
encode_body-ReadsBack unchoke d = refl
encode_body-ReadsBack interested d = refl
encode_body-ReadsBack not_interested d = refl
encode_body-ReadsBack have_all d = refl
encode_body-ReadsBack have_none d = refl
encode_body-ReadsBack (bitfield bits) d = refl
encode_body-ReadsBack (have v) d =
    ReadsBack-bind _ (uint32_body v) _
      λ body e. let (n, en, ed) = Fields.decode_uint32-body v e in rw (ed, en)
encode_body-ReadsBack (suggest_piece v) d =
    ReadsBack-bind _ (uint32_body v) _
      λ body e. let (n, en, ed) = Fields.decode_uint32-body v e in rw (ed, en)
encode_body-ReadsBack (allowed_fast v) d =
    ReadsBack-bind _ (uint32_body v) _
      λ body e. let (n, en, ed) = Fields.decode_uint32-body v e in rw (ed, en)
encode_body-ReadsBack (request r) d =
    ReadsBack-bind _ (encode_block_request r) _
      λ body e. rw (Fields.decode-encode_block_request r e)
encode_body-ReadsBack (cancel r) d =
    ReadsBack-bind _ (encode_block_request r) _
      λ body e. rw (Fields.decode-encode_block_request r e)
encode_body-ReadsBack (reject_request r) d =
    ReadsBack-bind _ (encode_block_request r) _
      λ body e. rw (Fields.decode-encode_block_request r e)
encode_body-ReadsBack (piece i b block) d = piece-ReadsBack i b block
encode_body-ReadsBack (port p) d = port-ReadsBack p
encode_body-ReadsBack (extended id bytes) d =
    ReadsBack-bind _ (guard (is_uint 255 id) range_error) _
      λ u e. rw (Fields.is_uint_nat 255 id (guard-eq-ok _ _ e)).0
encode_body-ReadsBack (hash_request r) d =
    ReadsBack-bind _ (encode_hash_request r) _ λ body e. rw (hash_request-ReadsBack r e)
encode_body-ReadsBack (hash_reject r) d =
    ReadsBack-bind _ (encode_hash_request r) _ λ body e. rw (hash_request-ReadsBack r e)
encode_body-ReadsBack (hashes r hs) d = hashes-ReadsBack r hs
encode_body-ReadsBack (unknown id bytes) d =
    ReadsBack-bind _ (guard (is_uint 255 id) range_error) _
      λ u e. rw (d, (Fields.is_uint_nat 255 id (guard-eq-ok _ _ e)).0)

-- `decodeMessagePayload` reads back what `encodeMessagePayload` wrote.
pub decode-encode_payload :
    (p : Payload) {bytes : List ℕ}
    → IsDecodable p
    → encode_payload p ≡ ok bytes
    → decode_payload bytes ≡ ok p
unfolding encode_payload
decode-encode_payload p {bytes} d h =
    let ((id, body), written, e) = >>=-eq-ok (encode_body p) _ h in
    let reads : decode_payload (id ∷ body) ≡ ok p =
      subst (ReadsBack p) written (encode_body-ReadsBack p d) in
    subst (λ t. decode_payload t ≡ ok p) (ok-injective e) reads

abbrev pub IsDecodableMessage : PeerMessage → Type 0
IsDecodableMessage keep_alive = Unit {0}
IsDecodableMessage (payload p) = IsDecodable p

pub encode_payload-ne-nil :
    (p : Payload) {bytes : List ℕ} → encode_payload p ≡ ok bytes → bytes ≢ []
unfolding encode_payload
encode_payload-ne-nil p h empty = let ((id, body), written, e) = >>=-eq-ok (encode_body p) _ h in cc

decode_message-frame :
    (bytes : List ℕ) {p : Payload}
    → bytes ≢ []
    → length bytes ≤ max_uint32
    → decode_payload bytes ≡ ok p
    → decode_message (uint32_bytes (length bytes) ++ bytes) ≡ ok (payload p)
unfolding decode_message get_uint32
decode_message-frame [] some' short reads = absurd (some' refl)
decode_message-frame (id ∷ body) some' short reads =
    let n : ℕ = suc (length body) in
    let frame : List ℕ = uint32_bytes n ++ (id ∷ body) in
    let long : leb 4 (length frame) ≡ true = le→leb 4 (length frame) (omega arith) in
    let same : (n == length frame - 4) ≡ true = (==_iff n (length frame - 4)).1 (omega arith) in
    let full : (n == 0) ≡ false = ground arith in
    rw (long, word32_of_uint32 n short, same, full, reads)

-- Every frame that `encodeMessage` writes, with a payload below 2 ^ 32 bytes, is read back by
-- `decodeMessage` as the same message, unless the message is an `unknown` one with the ID of a
-- known one.
pub decode-encode_message :
    (m : PeerMessage) {frame : List ℕ}
    → IsDecodableMessage m
    → length frame < 4294967300
    → encode_message m ≡ ok frame
    → decode_message frame ≡ ok m
unfolding encode_message decode_message get_uint32
decode-encode_message keep_alive d short h = rw (← ok-injective h)
decode-encode_message (payload p) {frame} d short h =
    let (bytes, written, e) = >>=-eq-ok (encode_payload p) _ h in
    let f = ok-injective e in
    let fits : length bytes ≤ max_uint32 =
      omega (arith, ap length f, length-append (uint32_bytes (length bytes)) bytes) in
    subst (λ t. decode_message t ≡ ok (payload p)) f
      (decode_message-frame bytes (encode_payload-ne-nil p written) fits
        (decode-encode_payload p d written))
