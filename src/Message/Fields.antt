-- ===== src/Message/Fields.antt =====
-- The helpers of core/message.ts that write and read numbers, block requests and hash requests:
-- what one of a pair writes the other reads.
use browsertorrent.Common.{
  ℕ, ◌+◌, ◌%◌, ◌≤◌, ◌≡◌, refl, sym, ap, ◌∙◌, ◌>>◌, true, false, List, ◌++◌, arith, ◌==◌, ok,
  >>=-eq-ok, length, take, drop, length-append, drop-append, take-append, leb→le,
}
use browsertorrent.Common.Words.{
  Number, nat, negative, fraction, not_a_number, is_uint, to_nat, uint32_bytes, word32_of_uint32,
}
use browsertorrent.Message.{
  Error, range_error, protocol_error, BlockRequest, HashRequestFields, max_uint32, as_uint32,
  uint32_body, encode_block_request, validate_hash_request, hash_request_bytes,
  hash_request_numbers, encode_hash_request, read_uint32, get_uint32, assert_length, decode_uint32,
  decode_block_request, decode_hash_request, is_hash_length,
}

pub is_uint_nat : (m : ℕ) (v : Number) → is_uint m v ≡ true → (v ≡ nat (to_nat v)) × (to_nat v ≤ m)
is_uint_nat m (nat n) h = (refl, leb→le n m h)
is_uint_nat m (negative n) h = cc
is_uint_nat m (fraction n mark) h = cc
is_uint_nat m not_a_number h = cc

uint32_body-eq-ok :
    (v : Number) {body : List ℕ}
    → uint32_body v ≡ ok body
    → (n : ℕ) × (v ≡ nat n) × (body ≡ uint32_bytes n) × (n ≤ max_uint32)
unfolding uint32_body as_uint32
uint32_body-eq-ok (nat n) h = (n, refl, ground arith, ground arith)
uint32_body-eq-ok (negative n) h = cc
uint32_body-eq-ok (fraction n mark) h = cc
uint32_body-eq-ok not_a_number h = cc

pub decode_uint32-body :
    (v : Number) {body : List ℕ}
    → uint32_body v ≡ ok body
    → (n : ℕ) × (v ≡ nat n) × (decode_uint32 body ≡ ok n)
unfolding decode_uint32 read_uint32
decode_uint32-body v h =
    let (n, e, f, le) = uint32_body-eq-ok v h in
    (n, e, ap decode_uint32 f ∙ ap ok (word32_of_uint32 n le))

encode_coordinates-eq-ok :
    (i b n : Number) {body : List ℕ}
    → encode_block_request (record { piece_index = i; begin = b; length = n }) ≡ ok body
    → (is_uint max_uint32 i ≡ true)
      × (is_uint max_uint32 b ≡ true)
      × (is_uint max_uint32 n ≡ true)
      × ((to_nat n == 0) ≡ false)
      × (body ≡ uint32_bytes (to_nat i) ++ (uint32_bytes (to_nat b) ++ uint32_bytes (to_nat n)))
unfolding encode_block_request as_uint32
encode_coordinates-eq-ok (nat i) (nat b) (nat n) h = ground arith
encode_coordinates-eq-ok (nat i) (nat b) _ h = ground arith
encode_coordinates-eq-ok (nat i) _ _ h = ground arith
encode_coordinates-eq-ok _ _ _ h = ground arith

decode_block_request-bytes :
    (i b n : ℕ)
    → i ≤ max_uint32
    → b ≤ max_uint32
    → n ≤ max_uint32
    → (n == 0) ≡ false
    → decode_block_request (uint32_bytes i ++ (uint32_bytes b ++ uint32_bytes n))
      ≡ ok (record { piece_index = nat i; begin = nat b; length = nat n })
unfolding decode_block_request assert_length get_uint32
decode_block_request-bytes i b n hi hb hn pos =
    rw (word32_of_uint32 n hn, pos, word32_of_uint32 i hi, word32_of_uint32 b hb)

pub decode-encode_block_request :
    (r : BlockRequest) {body : List ℕ}
    → encode_block_request r ≡ ok body
    → decode_block_request body ≡ ok r
decode-encode_block_request r h =
    let (hi, hb, hn, pos, e) = encode_coordinates-eq-ok r.piece_index r.begin r.length h in
    let (ei, li) = is_uint_nat max_uint32 r.piece_index hi in
    let (eb, lb) = is_uint_nat max_uint32 r.begin hb in
    let (en, ln) = is_uint_nat max_uint32 r.length hn in
    rw e (
      decode_block_request-bytes _ _ _ li lb ln pos
      ∙ (λ k. ok (record { piece_index = sym ei k; begin = sym eb k; length = sym en k })))

-- What `validateHashRequest` lets through.
pub record IsHashRequest (r : HashRequestFields) : Type 0 where
  pub root : length r.pieces_root ≡ 32
  pub base_layer : is_uint max_uint32 r.base_layer ≡ true
  pub index : is_uint max_uint32 r.index ≡ true
  pub span : is_uint max_uint32 r.length ≡ true
  pub proof_layers : is_uint max_uint32 r.proof_layers ≡ true
  pub power : is_hash_length (to_nat r.length) ≡ true
  pub aligned : ((to_nat r.index % to_nat r.length) == 0) ≡ true

pub validate-IsHashRequest :
    (r : HashRequestFields) (e : Error) {u : Unit {0}}
    → validate_hash_request r e ≡ ok u
    → IsHashRequest r
unfolding validate_hash_request
validate-IsHashRequest r e h = ground arith

pub IsHashRequest-validate :
    (r : HashRequestFields) (e : Error) → IsHashRequest r → validate_hash_request r e ≡ ok tt
unfolding validate_hash_request
IsHashRequest-validate r e v =
    rw (v.root, v.base_layer, v.index, v.span, v.proof_layers, v.power, v.aligned)

pub encode_hash_request-eq-ok :
    (r : HashRequestFields) {body : List ℕ}
    → encode_hash_request r ≡ ok body
    → IsHashRequest r × (body ≡ hash_request_bytes r)
unfolding encode_hash_request
encode_hash_request-eq-ok r h =
    let (u, hu, e) = >>=-eq-ok (validate_hash_request r range_error) _ h in
    (validate-IsHashRequest r range_error hu, cc)

pub length-hash_request_bytes :
    (r : HashRequestFields) → length r.pieces_root ≡ 32 → length (hash_request_bytes r) ≡ 48
length-hash_request_bytes r h = rw length-append (omega (arith, h))

read_uint32-append :
    (xs ys : List ℕ) (k m n : ℕ)
    → m ≡ length xs + k
    → read_uint32 (drop k ys) ≡ ok n
    → get_uint32 (xs ++ ys) m ≡ ok n
unfolding get_uint32
read_uint32-append xs ys k m n h e = rw (drop-append xs ys k m h) e

-- Fields that fit their places, whether or not `validateHashRequest` accepts them.
pub record HasWords (r : HashRequestFields) : Type 0 where
  pub root : length r.pieces_root ≡ 32
  pub base_layer : is_uint max_uint32 r.base_layer ≡ true
  pub index : is_uint max_uint32 r.index ≡ true
  pub span : is_uint max_uint32 r.length ≡ true
  pub proof_layers : is_uint max_uint32 r.proof_layers ≡ true

pub decode_hash_request-words :
    (r : HashRequestFields)
    → HasWords r
    → decode_hash_request (hash_request_bytes r) ≡ (validate_hash_request r protocol_error >> ok r)
unfolding decode_hash_request assert_length read_uint32
decode_hash_request-words r v =
    let root = r.pieces_root in
    let (el, hl) = is_uint_nat max_uint32 r.base_layer v.base_layer in
    let (ei, hi) = is_uint_nat max_uint32 r.index v.index in
    let (en, hn) = is_uint_nat max_uint32 r.length v.span in
    let (ep, hp) = is_uint_nat max_uint32 r.proof_layers v.proof_layers in
    let at : (k m n : ℕ)
        → m ≡ 32 + k
        → read_uint32 (drop k (hash_request_numbers r)) ≡ ok n
        → get_uint32 (hash_request_bytes r) m ≡ ok n =
      λ k m n h e. read_uint32-append root _ k m n (omega (arith, v.root)) e in
    let whole : record {
      pieces_root = take 32 (hash_request_bytes r);
      base_layer = nat (to_nat r.base_layer);
      index = nat (to_nat r.index);
      length = nat (to_nat r.length);
      proof_layers = nat (to_nat r.proof_layers);
    }
        ≡ r =
      λ k. record {
        pieces_root = take-append root (hash_request_numbers r) 32 (sym v.root) k;
        base_layer = sym el k;
        index = sym ei k;
        length = sym en k;
        proof_layers = sym ep k;
      } in
    rw (
      length-hash_request_bytes r v.root,
      at 0 32 _ (omega arith) (ap ok (word32_of_uint32 _ hl)),
      at 4 36 _ (omega arith) (ap ok (word32_of_uint32 _ hi)),
      at 8 40 _ (omega arith) (ap ok (word32_of_uint32 _ hn)),
      at 12 44 _ (omega arith) (ap ok (word32_of_uint32 _ hp)),
      whole,
    )

pub decode_hash_request-bytes :
    (r : HashRequestFields) → IsHashRequest r → decode_hash_request (hash_request_bytes r) ≡ ok r
decode_hash_request-bytes r v =
    let words : HasWords r = record {
      root = v.root;
      base_layer = v.base_layer;
      index = v.index;
      span = v.span;
      proof_layers = v.proof_layers;
    } in
    decode_hash_request-words r words ∙ rw (IsHashRequest-validate r protocol_error v)
