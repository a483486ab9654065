-- ===== src/SimpleBuffer/Queue.antt =====
-- The methods of the buffer as those of a queue: `write` adds at the end, `readBytes` takes from
-- the front, `compact` and `grow` change nothing.
use browsertorrent.Common.{
  ℕ, zero, suc, ◌+◌, ◌≤◌, ◌<◌, ◌≡◌, refl, sym, ap, ◌∙◌, true, false, some, List, [], ◌++◌, ltb, leb,
  le→leb, lt→ltb, ◌↔◌, ◌==◌, ok, err, length, take, drop, replicate, Bool-cases, inl, inr, arith,
  length-append, drop-drop, take-drop-append, drop-append_left, take-take, ◌∷◌,
}
use browsertorrent.Common.Words.{nat}
use browsertorrent.SimpleBuffer.{
  SimpleBuffer, unread, compact, make_room, grow, write, read_bytes, capacity_exceeded,
  max_safe_integer, not_enough, read_byte, new, reset, has_next, initial_size, empty,
  invalid_capacity,
}
use browsertorrent.SimpleBuffer.Laws.{
  IsValid, content, Same, Same-refl, shift-Same, make_room-Roomy, written, content-written,
  length-written, length-content,
}
use mathlib.Core.List.{append_assoc}

-- `compact` keeps a valid buffer valid, with its capacity and the same unread bytes.
pub compact-Same : (b : SimpleBuffer) → IsValid b → Same b (compact b)
unfolding compact
compact-Same b v = elim (Bool-cases (b.read_pos == 0)) [
  | inl front ↦ rw front (Same-refl b v)
  | inr behind ↦ rw behind (shift-Same b v)
]

-- `grow` on a valid buffer succeeds exactly if the unread bytes and the extra ones are no more than
-- the capacity, and else fails as past the capacity. The buffer then is valid, has the same capacity and
-- the same unread bytes, and has room for the extra ones behind them.
pub grow_lem :
    (extra : ℕ) (b : SimpleBuffer)
    → IsValid b
    → (length (content b) + extra ≤ b.max_capacity
        → (c : SimpleBuffer) × (grow extra b ≡ ok c)
          × Same b c
          × (c.write_pos + extra ≤ length c.buf))
      × (b.max_capacity < length (content b) + extra → grow extra b ≡ err capacity_exceeded)
grow_lem extra b v =
    let size = length-content b v in
    (
      λ fits.
          let test = le→leb (unread b + extra) b.max_capacity (omega arith) in
          let (same, room) = make_room-Roomy extra b v in
          (make_room extra b, unfold grow in rw test, same, room),
      λ over.
          let test : leb (unread b + extra) b.max_capacity ≡ false = ground arith in
          unfold grow in rw test,
    )

-- The buffer after `#buf.set` and the move of the position to write at.
abbrev appended : List ℕ → SimpleBuffer → SimpleBuffer
appended bytes c = record c {
  buf = written c ++ (bytes ++ drop (c.write_pos + length bytes) c.buf);
  write_pos = c.write_pos + length bytes;
}

appended-content :
    (bytes : List ℕ) (c : SimpleBuffer)
    → IsValid c
    → content (appended bytes c) ≡ content c ++ bytes
appended-content bytes c v =
    let front = written c in
    let rest = drop (c.write_pos + length bytes) c.buf in
    let size = length-written c v in
    let total = length-append front bytes in
    ap (λ t. take (unread (appended bytes c)) (drop c.read_pos t))
      (sym (append_assoc front bytes rest))
    ∙ take-drop-append (front ++ bytes) rest c.read_pos (unread (appended bytes c))
        (omega (arith, v.ordered)) (omega arith)
    ∙ drop-append_left c.read_pos front bytes (omega (arith, v.ordered))
    ∙ ap (λ t. t ++ bytes) (sym (content-written c v))

appended-IsValid :
    (bytes : List ℕ) (c : SimpleBuffer)
    → IsValid c
    → c.write_pos + length bytes ≤ length c.buf
    → unread c + length bytes ≤ c.max_capacity
    → IsValid (appended bytes c)
appended-IsValid bytes c v fits small =
    let rest = drop (c.write_pos + length bytes) c.buf in
    let outer = length-append (written c) (bytes ++ rest) in
    let inner = length-append bytes rest in
    let size = length-written c v in
    record {
      ordered = omega (arith, v.ordered);
      inside = omega arith;
      bounded = omega (arith, v.ordered);
    }

-- `write` on a valid buffer succeeds exactly if the unread bytes and the new ones are no more than
-- the capacity, and else fails as past the capacity. The buffer then is valid, has the same capacity, and
-- its unread bytes are those from before and the new ones after them.
pub write_lem :
    (bytes : List ℕ) (b : SimpleBuffer)
    → IsValid b
    → (length (content b) + length bytes ≤ b.max_capacity
        → (c : SimpleBuffer) × (write bytes b ≡ ok c)
          × IsValid c
          × (content c ≡ content b ++ bytes)
          × (c.max_capacity ≡ b.max_capacity))
      × (b.max_capacity < length (content b) + length bytes → write bytes b ≡ err capacity_exceeded)
write_lem bytes b v =
    let (grows, refuses) = grow_lem (length bytes) b v in
    (
      λ fits.
          let (c, grown, same, room) = grows fits in
          let test = le→leb (c.write_pos + length bytes) (length c.buf) room in
          let same_size = ap length same.content in
          let size = length-content c same.valid in
          let capacity = same.max_capacity in
          (
            appended bytes c,
            unfold write in rw (grown, test),
            appended-IsValid bytes c same.valid room (omega arith),
            appended-content bytes c same.valid ∙ ap (λ t. t ++ bytes) same.content,
            capacity,
          ),
      λ over. unfold write in rw (refuses over),
    )

-- The buffer after a read.
abbrev consumed : ℕ → SimpleBuffer → SimpleBuffer
consumed n b = record b { read_pos = b.read_pos + n }

consumed-IsValid : (n : ℕ) (b : SimpleBuffer) → IsValid b → n ≤ unread b → IsValid (consumed n b)
consumed-IsValid n b v h = record {
  ordered = omega (arith, v.ordered);
  inside = v.inside;
  bounded = omega (arith, v.bounded);
}

consumed-content :
    (n : ℕ) (b : SimpleBuffer)
    → IsValid b
    → n ≤ unread b
    → content (consumed n b) ≡ drop n (content b)
consumed-content n b v h =
    content-written (consumed n b) (consumed-IsValid n b v h)
    ∙ sym (drop-drop b.read_pos n (b.read_pos + n) (written b) refl)
    ∙ ap (drop n) (sym (content-written b v))

-- `readBytes` of a natural number on a valid buffer with as many unread bytes returns the first
-- ones, and the buffer then is valid and has the other unread bytes in their order. With fewer it
-- fails as not having enough.
pub read_bytes_lem :
    (n : ℕ) (b : SimpleBuffer)
    → IsValid b
    → n ≤ max_safe_integer
    → (n ≤ length (content b)
        → (c : SimpleBuffer) × (read_bytes (nat n) b ≡ ok (take n (content b), c))
          × IsValid c
          × (content c ≡ drop n (content b))
          × (c.max_capacity ≡ b.max_capacity))
      × (length (content b) < n → read_bytes (nat n) b ≡ err not_enough)
read_bytes_lem zero b v safe =
    (λ h. (b, unfold read_bytes in refl, v, refl, refl), λ h. absurd (omega arith))
read_bytes_lem (suc n) b v safe =
    let size = length-content b v in
    let valid : leb (suc n) max_safe_integer ≡ true = le→leb _ _ safe in
    let some_bytes : (suc n == 0) ≡ false = ground arith in
    (
      λ h.
          let fits : suc n ≤ unread b = omega arith in
          let test : leb (suc n) (unread b) ≡ true = le→leb _ _ fits in
          let same : take (suc n) (drop b.read_pos b.buf) ≡ take (suc n) (content b) =
            sym (take-take (suc n) (unread b) (drop b.read_pos b.buf) fits) in
          (
            consumed (suc n) b,
            unfold read_bytes in
                rw (valid, some_bytes, test) (ap (λ t. ok (t, consumed (suc n) b)) same),
            consumed-IsValid (suc n) b v fits,
            consumed-content (suc n) b v fits,
            refl,
          ),
      λ h.
          let test : leb (suc n) (unread b) ≡ false = ground arith in
          unfold read_bytes in rw (valid, some_bytes, test),
    )

-- `readByte` on a valid buffer returns the oldest unread byte, and the buffer then is valid and has
-- the others. With none it fails as empty.
pub read_byte_lem :
    (b : SimpleBuffer)
    → IsValid b
    → ((x : ℕ) (xs : List ℕ)
        → content b ≡ x ∷ xs
        → (c : SimpleBuffer) × (read_byte b ≡ ok (x, c)) × IsValid c × (content c ≡ xs))
      × (content b ≡ [] → read_byte b ≡ err empty)
read_byte_lem b v =
    let size = length-content b v in
    (
      λ x xs e.
          let counted : length (content b) ≡ suc (length xs) = ap length e in
          let (c, read, valid, left, same) = (read_bytes_lem 1 b v (omega arith)).0 (omega arith) in
          let nonempty : (unread b == 0) ≡ false = ground arith in
          (c, unfold read_byte in rw (nonempty, read, e), valid, left ∙ ap (drop 1) e),
      λ e.
          let counted : length (content b) ≡ 0 = ap length e in
          let none_left : (unread b == 0) ≡ true = ground arith in unfold read_byte in rw none_left,
    )

-- The constructor accepts exactly the positive safe integers of the natural numbers, and makes a
-- valid buffer with this capacity and no unread bytes.
pub new-IsValid :
    (n : ℕ)
    → (0 < n
        → n ≤ max_safe_integer
        → (b : SimpleBuffer) × (new (some (nat n)) ≡ ok b)
          × IsValid b
          × (content b ≡ [])
          × (b.max_capacity ≡ n))
      × (n ≡ 0 → new (some (nat n)) ≡ err invalid_capacity)
      × (max_safe_integer < n → new (some (nat n)) ≡ err invalid_capacity)
new-IsValid n = (
  λ positive safe.
      let small : leb n max_safe_integer ≡ true = le→leb _ _ safe in
      let some_room : ltb 0 n ≡ true = lt→ltb _ _ positive in
      (
        record { buf = replicate initial_size 0; read_pos = 0; write_pos = 0; max_capacity = n },
        unfold new in rw (small, some_room),
        record { ordered = omega arith; inside = omega arith; bounded = omega arith },
        refl,
        refl,
      ),
  λ e. unfold new in rw e,
  λ h. let big : leb n max_safe_integer ≡ false = ground arith in unfold new in rw big,
)

-- `reset` of a valid buffer is valid, has no unread bytes and the same capacity; `hasNext` answers
-- whether there is an unread byte.
pub reset-has_next :
    (b : SimpleBuffer)
    → IsValid b
    → IsValid (reset b)
      × (content (reset b) ≡ [])
      × ((reset b).max_capacity ≡ b.max_capacity)
      × ((has_next b ≡ false) ↔ (content b ≡ []))
reset-has_next b v = (
  unfold reset in record { ordered = omega arith; inside = omega arith; bounded = omega arith },
  unfold reset in refl,
  unfold reset in refl,
  unfold has_next in
      (
        λ h.
            let none_left : unread b ≡ 0 = ground arith in
            ap (λ n. take n (drop b.read_pos b.buf)) none_left,
        λ e.
            let size = length-content b v in
            let counted : length (content b) ≡ 0 = ap length e in ground arith,
      ),
)
