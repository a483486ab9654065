-- ===== src/Message/Views.antt =====
-- A body of bytes as the numbers that `DataView` reads from it.
use browsertorrent.Common.{
  ℕ, ◌+◌, ◌≤◌, ◌≡◌, refl, sym, ap, ◌∙◌, List, [], ◌∷◌, ◌++◌, arith, ◌==◌, ok, err, length, drop,
  take, le→leb, ==_iff, >>=-eq-ok, ok-injective, if◌then◌else◌, guard-eq-ok, Bool-cases, inl, inr,
  ◌>>◌, take-append-drop, length-take, length-drop,
}
use browsertorrent.Common.Words.{
  nat, uint32_bytes, word32, AllBytes, word32-le, uint32_bytes-word32, AllBytes-append_right,
  word32_of_uint32,
}
use browsertorrent.Message.{
  BlockRequest, HashRequestFields, protocol_error, range_error, max_uint32, uint32_body, as_uint32,
  encode_block_request, encode_hash_request, hash_request_bytes, validate_hash_request,
  decode_uint32, get_uint32, assert_length, decode_block_request, decode_hash_request,
}
use browsertorrent.Message.Fields
use browsertorrent.Message.Fields.{HasWords}
use mathlib.Core.Path.{subst}

-- The number in the first four bytes, and the bytes behind it.
pub word_view :
    (body : List ℕ)
    → AllBytes body
    → 4 ≤ length body
    → (n : ℕ) × (rest : List ℕ) × (n ≤ max_uint32)
      × AllBytes rest
      × (length body ≡ 4 + length rest)
      × (body ≡ uint32_bytes n ++ rest)
word_view (a ∷ b ∷ c ∷ d ∷ rest) h long = (
  word32 a b c d,
  rest,
  word32-le a b c d h.0 h.1.0 h.1.1.0 h.1.1.1.0,
  h.1.1.1.1,
  omega arith,
  sym (ap (λ t. t ++ rest) (uint32_bytes-word32 a b c d h.0 h.1.0 h.1.1.0 h.1.1.1.0)),
)
word_view [] h long = absurd (omega arith)
word_view (a ∷ []) h long = absurd (omega arith)
word_view (a ∷ b ∷ []) h long = absurd (omega arith)
word_view (a ∷ b ∷ c ∷ []) h long = absurd (omega arith)

pub nil_of_length : (xs : List ℕ) → length xs ≡ 0 → xs ≡ []
nil_of_length [] h = refl
nil_of_length (x ∷ xs) h = absurd (omega arith)

pub assert_length-eq-ok :
    (body : List ℕ) (n : ℕ) {u : Unit {0}} → assert_length body n ≡ ok u → length body ≡ n
unfolding assert_length
assert_length-eq-ok body n h = (==_iff (length body) n).0 (guard-eq-ok _ _ h)

uint32_view :
    (body : List ℕ)
    → AllBytes body
    → length body ≡ 4
    → (n : ℕ) × (n ≤ max_uint32) × (body ≡ uint32_bytes n)
uint32_view body bytes size =
    let (n, rest, hn, b, l, e) = word_view body bytes (omega arith) in
    let end : rest ≡ [] = nil_of_length rest (omega arith) in
    (n, hn, e ∙ ap (λ t. uint32_bytes n ++ t) end)

pub encode-decode_uint32 :
    (body : List ℕ) {n : ℕ}
    → AllBytes body
    → decode_uint32 body ≡ ok n
    → uint32_body (nat n) ≡ ok body
unfolding decode_uint32 uint32_body as_uint32
encode-decode_uint32 body {n} bytes h =
    let (u, test, read) = >>=-eq-ok (assert_length body 4) (λ _. get_uint32 body 0) h in
    let (m, hm, e) = uint32_view body bytes (assert_length-eq-ok body 4 test) in
    let reads : decode_uint32 (uint32_bytes m) ≡ ok m = ap ok (word32_of_uint32 m hm) in
    let same : n ≡ m = ok-injective (sym h ∙ ap decode_uint32 e ∙ reads) in
    let writes : uint32_body (nat m) ≡ ok (uint32_bytes m) = rw (le→leb m max_uint32 hm) in
    ap (λ t. uint32_body (nat t)) same ∙ writes ∙ ap ok (sym e)

block_view :
    (body : List ℕ)
    → AllBytes body
    → length body ≡ 12
    → (i b n : ℕ) × (i ≤ max_uint32)
      × (b ≤ max_uint32)
      × (n ≤ max_uint32)
      × (body ≡ uint32_bytes i ++ (uint32_bytes b ++ uint32_bytes n))
block_view body bytes size =
    let (i, r1, hi, b1, l1, e1) = word_view body bytes (omega arith) in
    let (b, r2, hb, b2, l2, e2) = word_view r1 b1 (omega arith) in
    let (n, hn, e3) = uint32_view r2 b2 (omega arith) in
    let inner : r1 ≡ uint32_bytes b ++ uint32_bytes n = e2 ∙ ap (λ t. uint32_bytes b ++ t) e3 in
    (i, b, n, hi, hb, hn, e1 ∙ ap (λ t. uint32_bytes i ++ t) inner)

module _ (i b n : ℕ) (hi : i ≤ max_uint32) (hb : b ≤ max_uint32) (hn : n ≤ max_uint32) where
  abbrev coordinates : BlockRequest
  coordinates = record { piece_index = nat i; begin = nat b; length = nat n }

  abbrev coordinate_bytes : List ℕ
  coordinate_bytes = uint32_bytes i ++ (uint32_bytes b ++ uint32_bytes n)

  -- Both ways round, the request of no bytes is refused, and any other is written and read.
  decode_coordinates :
      decode_block_request coordinate_bytes
      ≡ (if n == 0 then err protocol_error else ok coordinates)
  unfolding decode_block_request assert_length get_uint32
  decode_coordinates = elim (Bool-cases (n == 0)) [
    | inl e ↦ rw (word32_of_uint32 n hn, e)
    | inr e ↦ rw (word32_of_uint32 n hn, e, word32_of_uint32 i hi, word32_of_uint32 b hb)
  ]

  encode_coordinates :
      encode_block_request coordinates ≡ (if n == 0 then err range_error else ok coordinate_bytes)
  unfolding encode_block_request as_uint32
  encode_coordinates = elim (Bool-cases (n == 0)) [
    | inl e ↦ rw (le→leb i max_uint32 hi, le→leb b max_uint32 hb, le→leb n max_uint32 hn, e)
    | inr e ↦ rw (le→leb i max_uint32 hi, le→leb b max_uint32 hb, le→leb n max_uint32 hn, e)
  ]

  encode-decode_coordinates :
      {r : BlockRequest}
      → decode_block_request coordinate_bytes ≡ ok r
      → encode_block_request r ≡ ok coordinate_bytes
  encode-decode_coordinates h = ground (arith, decode_coordinates, encode_coordinates)

pub encode-decode_block_request :
    (body : List ℕ) {r : BlockRequest}
    → AllBytes body
    → decode_block_request body ≡ ok r
    → encode_block_request r ≡ ok body
unfolding decode_block_request
encode-decode_block_request body {r} bytes h =
    let (u, test, _) = >>=-eq-ok (assert_length body 12) _ h in
    let (i, b, n, hi, hb, hn, e) = block_view body bytes (assert_length-eq-ok body 12 test) in
    encode-decode_coordinates i b n hi hb hn (sym (ap decode_block_request e) ∙ h) ∙ ap ok (sym e)

hash_view :
    (body : List ℕ)
    → AllBytes body
    → length body ≡ 48
    → (r : HashRequestFields) × HasWords r × (body ≡ hash_request_bytes r)
hash_view body bytes size =
    let root : List ℕ = take 32 body in
    let split : root ++ drop 32 body ≡ body = take-append-drop 32 body in
    let tail : AllBytes (drop 32 body) =
      AllBytes-append_right root (drop 32 body) (subst AllBytes (sym split) bytes) in
    let (l, r1, hl, b1, l1, e1) =
      word_view (drop 32 body) tail (omega (arith, length-drop 32 body)) in
    let (i, r2, hi, b2, l2, e2) = word_view r1 b1 (omega (arith, length-drop 32 body)) in
    let (n, r3, hn, b3, l3, e3) = word_view r2 b2 (omega (arith, length-drop 32 body)) in
    let (p, hp, e4) = uint32_view r3 b3 (omega (arith, length-drop 32 body)) in
    let words =
      e1
      ∙ ap (λ t. uint32_bytes l ++ t)
          (e2 ∙ ap (λ t. uint32_bytes i ++ t) (e3 ∙ ap (λ t. uint32_bytes n ++ t) e4)) in
    (
      record {
        pieces_root = root;
        base_layer = nat l;
        index = nat i;
        length = nat n;
        proof_layers = nat p;
      },
      record {
        root = omega (arith, length-take 32 body);
        base_layer = le→leb l max_uint32 hl;
        index = le→leb i max_uint32 hi;
        span = le→leb n max_uint32 hn;
        proof_layers = le→leb p max_uint32 hp;
      },
      sym split ∙ ap (λ t. root ++ t) words,
    )

pub encode-decode_hash_request :
    (body : List ℕ) {r : HashRequestFields}
    → AllBytes body
    → decode_hash_request body ≡ ok r
    → encode_hash_request r ≡ ok body
unfolding encode_hash_request decode_hash_request
encode-decode_hash_request body {r} bytes h =
    let (u, test, _) = >>=-eq-ok (assert_length body 48) _ h in
    let (q, words, e) = hash_view body bytes (assert_length-eq-ok body 48 test) in
    let read : (validate_hash_request q protocol_error >> ok q) ≡ ok r =
      sym (Fields.decode_hash_request-words q words) ∙ ap decode_hash_request (sym e) ∙ h in
    let (v, valid, same) = >>=-eq-ok (validate_hash_request q protocol_error) (λ _. ok q) read in
    let q≡r : q ≡ r = ok-injective same in
    let writes : encode_hash_request q ≡ ok (hash_request_bytes q) = rw (
      Fields.IsHashRequest-validate q range_error
        (Fields.validate-IsHashRequest q protocol_error valid)) in
    subst (λ t. encode_hash_request t ≡ ok body) q≡r (writes ∙ ap ok (sym e))
