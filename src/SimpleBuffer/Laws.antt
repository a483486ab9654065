-- ===== src/SimpleBuffer/Laws.antt =====
-- The buffer is a queue of bytes: what is unread, oldest first.
use browsertorrent.Common.{
  ℕ, zero, suc, ◌+◌, ◌-◌, ◌*◌, ◌≤◌, ◌<◌, ◌≡◌, refl, sym, ap, ◌∙◌, true, List, ◌++◌, ltb, leb→le,
  length, take, drop, replicate, Bool-cases, inl, inr, arith, length-append, length-take,
  length-drop, length-replicate, take-append, take-append-drop, take-drop-append,
}
use browsertorrent.SimpleBuffer.{SimpleBuffer, unread, shift, doubled, expand, has_room, make_room}
use Prim.Native.Nat.{max}

-- The positions are in order and inside the storage, and the capacity is kept.
pub record IsValid (b : SimpleBuffer) : Type 0 where
  pub ordered : b.read_pos ≤ b.write_pos
  pub inside : b.write_pos ≤ length b.buf
  pub bounded : unread b ≤ b.max_capacity

-- The queue that the buffer stands for.
abbrev pub content : SimpleBuffer → List ℕ
content b = take (unread b) (drop b.read_pos b.buf)

-- The other buffer stands for the same queue.
pub record Same (b c : SimpleBuffer) : Type 0 where
  pub valid : IsValid c
  pub content : content c ≡ content b
  pub max_capacity : c.max_capacity ≡ b.max_capacity

pub length-content : (b : SimpleBuffer) → IsValid b → length (content b) ≡ unread b
length-content b v =
    omega (
      arith,
      length-take (unread b) (drop b.read_pos b.buf),
      length-drop b.read_pos b.buf,
      v.inside,
    )

pub shift-Same : (b : SimpleBuffer) → IsValid b → Same b (shift b)
unfolding shift
shift-Same b v =
    let old = content b in
    let size : length old ≡ unread b = length-content b v in
    let total = length-append old (drop (unread b) b.buf) in
    record {
      valid = record {
        ordered = omega arith;
        inside = omega (arith, total, length-drop (unread b) b.buf, v.inside);
        bounded = omega (arith, v.bounded);
      };
      content = take-append old (drop (unread b) b.buf) (unread b - 0) (omega arith);
      max_capacity = refl;
    }

doubled-enough :
    (fuel size needed : ℕ) → 0 < size → needed ≤ size + fuel → needed ≤ doubled fuel size needed
unfolding doubled
doubled-enough zero size needed h enough = omega arith
doubled-enough (suc fuel) size needed h enough =
    ground (arith, doubled-enough fuel (size * 2) needed)

-- The storage up to the position to write at.
abbrev pub written : SimpleBuffer → List ℕ
written b = take b.write_pos b.buf

pub length-written : (b : SimpleBuffer) → IsValid b → length (written b) ≡ b.write_pos
length-written b v = omega (arith, length-take b.write_pos b.buf, v.inside)

pub content-written : (b : SimpleBuffer) → IsValid b → content b ≡ drop b.read_pos (written b)
content-written b v =
    ap (λ t. take (unread b) (drop b.read_pos t)) (sym (take-append-drop b.write_pos b.buf))
    ∙ take-drop-append (written b) (drop b.write_pos b.buf) b.read_pos (unread b)
        (omega (arith, length-written b v, v.ordered)) (omega (arith, length-written b v))

-- Storage with the same bytes up to the position to write at stands for the same queue.
restored :
    (b : SimpleBuffer) (more : List ℕ) → IsValid b → Same b (record b { buf = written b ++ more })
restored b more v =
    let size = length-written b v in
    record {
      valid = record {
        ordered = v.ordered;
        inside = omega (arith, length-append (written b) more, size);
        bounded = v.bounded;
      };
      content =
          take-drop-append (written b) more b.read_pos (unread b) (omega (arith, size, v.ordered))
            (omega (arith, size))
          ∙ sym (content-written b v);
      max_capacity = refl;
    }

pub Same-trans : {b c d : SimpleBuffer} → Same b c → Same c d → Same b d
Same-trans p q = record {
  valid = q.valid;
  content = q.content ∙ p.content;
  max_capacity = q.max_capacity ∙ p.max_capacity;
}

pub Same-refl : (b : SimpleBuffer) → IsValid b → Same b b
Same-refl b v = record { valid = v; content = refl; max_capacity = refl }

-- A buffer for the same queue that has room behind it.
abbrev pub Roomy : ℕ → SimpleBuffer → SimpleBuffer → Type 0
Roomy extra b c = Same b c × (c.write_pos + extra ≤ length c.buf)

expand-Roomy : (extra : ℕ) (b : SimpleBuffer) → IsValid b → Roomy extra b (expand extra b)
unfolding expand
expand-Roomy extra b v =
    let needed : ℕ = b.write_pos + extra in
    let first : ℕ = max (length b.buf * 2) 64 in
    let new_size : ℕ = doubled needed first needed in
    let zeros : List ℕ = replicate (new_size - b.write_pos) 0 in
    let fits = doubled-enough needed first needed (omega arith) (omega arith) in
    (
      restored b zeros v,
      omega (
        arith,
        length-append (written b) zeros,
        length-written b v,
        fits,
        length-replicate {A = ℕ} (new_size - b.write_pos) 0,
      ),
    )

room :
    (extra : ℕ) (b : SimpleBuffer)
    → IsValid b
    → has_room extra b ≡ true
    → b.write_pos + extra ≤ length b.buf
room extra b v h = omega (arith, leb→le extra (length b.buf - b.write_pos) h, v.inside)

pub make_room-Roomy : (extra : ℕ) (b : SimpleBuffer) → IsValid b → Roomy extra b (make_room extra b)
unfolding make_room
make_room-Roomy extra b v = elim (Bool-cases (has_room extra b)) [
  | inl enough ↦ rw enough (Same-refl b v, room extra b v enough)
  | inr little ↦ elim (Bool-cases (ltb 0 b.read_pos)) [
    | inl read ↦
        let c : SimpleBuffer = shift b in
        let same : Same b c = shift-Same b v in
        elim (Bool-cases (has_room extra c)) [
          | inl enough ↦ rw (little, read, enough) (same, room extra c same.valid enough)
          | inr still ↦
              let (more, fits) = expand-Roomy extra c same.valid in
              rw (little, read, still) (Same-trans same more, fits)
        ]
    | inr unread_yet ↦ rw (little, unread_yet) (expand-Roomy extra b v)
  ]
]
