-- ===== src/ByteIo/Write.antt =====
-- `writeAll` with a writer that takes a part of the bytes at a time.
use browsertorrent.Common.{
  ℕ, zero, suc, ◌+◌, ◌-◌, ◌≤◌, ◌<◌, ◌≡◌, refl, sym, ap, ◌∙◌, true, false, List, ◌++◌, ltb, ltb→lt,
  arith, Bool-cases, inl, inr, ok, length, take, drop, length-drop, drop-drop, take-append-drop,
  drop_all,
}
use browsertorrent.Common.Int.{pos}
use mathlib.Core.List.{append-nil, append_assoc}
use browsertorrent.ByteIo.{
  integer, WriteReply, WriteOutcome, written_all, assert_count, write, write_loop, write_all,
  Operation, advance_write,
}

-- What `write` promises of a non-empty view: it adds some of the view's first bytes to what is
-- written, one at least, and answers how many.
abbrev pub Writes {ℓ} : {S : Type ℓ} → (List ℕ → S → WriteReply S) → (S → List ℕ) → Type ℓ
Writes {S = S} writer written =
    (p : List ℕ) (s : S)
    → 0 < length p
    → (c : ℕ) × (0 < c)
      × (c ≤ length p)
      × ((writer p s).count ≡ integer (pos c))
      × (written (writer p s).rest ≡ written s ++ take c p)

pub assert_count_lem :
    (n maximum : ℕ) (operation : Operation)
    → 0 < n
    → n ≤ maximum
    → assert_count (integer (pos n)) maximum operation ≡ ok n
unfolding assert_count
assert_count_lem n maximum operation h h' = ground arith

module _ {ℓ} {S : Type ℓ} (writer : List ℕ → S → WriteReply S) (written : S → List ℕ) where
  abbrev Wrote : WriteOutcome S → List ℕ → Type ℓ
  Wrote o expected = (s : S) × (o ≡ written_all s) × (written s ≡ expected)

  all_written :
      (bytes : List ℕ) (offset : ℕ) (s : S)
      → length bytes ≤ offset
      → written s ≡ written s ++ drop offset bytes
  all_written bytes offset s h = rw (drop_all offset bytes h, append-nil (written s))

  write_round :
      (bytes : List ℕ) (fuel offset c : ℕ) (s : S)
      → ltb offset (length bytes) ≡ true
      → (writer (drop offset bytes) s).count ≡ integer (pos c)
      → assert_count (integer (pos c)) (length bytes - offset) write ≡ ok c
      → write_loop writer bytes (suc fuel) offset s
        ≡ write_loop writer bytes fuel (offset + c) (writer (drop offset bytes) s).rest
  write_round bytes fuel offset c s more counted accepted =
      unfold write_loop advance_write in rw (more, counted, accepted)

  write_loop-Wrote :
      Writes writer written
      → (bytes : List ℕ) (fuel offset : ℕ) (s : S) → offset ≤ length bytes
      → length bytes ≤ offset + fuel
      → Wrote (write_loop writer bytes fuel offset s) (written s ++ drop offset bytes)
  write_loop-Wrote writes bytes zero offset s le enough =
      let stop : ltb offset (length bytes) ≡ false = ground arith in
      (s, unfold write_loop in rw stop, all_written bytes offset s (omega arith))
  write_loop-Wrote writes bytes (suc fuel) offset s le enough =
      elim (Bool-cases (ltb offset (length bytes))) [
        | inl more ↦
            let lt = ltb→lt offset (length bytes) more in
            let rest : List ℕ = drop offset bytes in
            let reply : WriteReply S = writer rest s in
            let left = length-drop offset bytes in
            let (c, positive, fits, counted, added) = writes rest s (omega arith) in
            let (s', ends, same) =
              write_loop-Wrote writes bytes fuel (offset + c) reply.rest (omega arith)
                (omega arith) in
            let accepted =
              assert_count_lem c (length bytes - offset) write positive (omega arith) in
            (
              s',
              write_round bytes fuel offset c s more counted accepted ∙ ends,
              same
                  ∙ ap (λ w. w ++ drop (offset + c) bytes) added
                  ∙ append_assoc (written s) (take c rest) (drop (offset + c) bytes)
                  ∙ ap (λ w. written s ++ (take c rest ++ w))
                      (sym (drop-drop offset c _ bytes refl))
                  ∙ ap (λ w. written s ++ w) (take-append-drop c rest),
            )
        | inr all ↦
            let stop : length bytes ≤ offset = ground arith in
            (s, unfold write_loop in rw all, all_written bytes offset s stop)
      ]

  -- With a writer that writes a part of a non-empty view each time, `writeAll` comes to its end
  -- without an error, and what is written then is what was before and all bytes after it.
  pub write_all_lem :
      Writes writer written
      → (bytes : List ℕ) (s : S)
      → (s' : S) × (write_all writer bytes s ≡ written_all s') × (written s' ≡ written s ++ bytes)
  unfolding write_all
  write_all_lem writes bytes s =
      write_loop-Wrote writes bytes (length bytes) 0 s (omega arith) (omega arith)
