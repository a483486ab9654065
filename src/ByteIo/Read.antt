-- ===== src/ByteIo/Read.antt =====
-- `readExactly` with a reader that delivers a stream of bytes in parts.
use browsertorrent.Common.{
  ℕ, zero, suc, ◌+◌, ◌-◌, ◌≤◌, ◌<◌, ◌≡◌, refl, sym, ap, ◌∙◌, Bool, true, false, none, some, List,
  [], ◌++◌, ltb, ltb→lt, arith, Bool-cases, inl, inr, ◌⊎◌, length, take, drop, length-drop,
  length-take, length-append, drop-drop, take-append-drop, take_all, take_add, take-append,
  if◌then◌else◌, ◌&&◌, ◌==◌,
}
use browsertorrent.Common.Int.{pos}
use mathlib.Core.Path.{subst}
use mathlib.Core.List.{append-nil, append_assoc}
use browsertorrent.ByteIo.{
  integer, ReadReply, ReadOutcome, returned, failed, unexpected_eof, read, read_loop, read_exactly,
  advance, on_count,
}
use browsertorrent.ByteIo.Write.{assert_count_lem}

-- The answer at the end of the stream, which leaves the view alone.
pub record AtEof {ℓ} {S : Type ℓ} (pending : S → List ℕ) (p : List ℕ) (s : S) (r : ReadReply S)
    : Type ℓ where
  pub nothing : pending s ≡ []
  pub counted : r.count ≡ none
  pub kept : r.bytes ≡ p
  pub still : pending r.rest ≡ []

-- The answer before it: a byte at least and what fits at most is taken into the view.
pub record Delivered {ℓ} {S : Type ℓ} (pending : S → List ℕ) (p : List ℕ) (s : S) (r : ReadReply S)
    : Type ℓ where
  pub n : ℕ
  pub positive : 0 < n
  pub fits : n ≤ length p
  pub there : n ≤ length (pending s)
  pub counted : r.count ≡ some (integer (pos n))
  pub bytes : r.bytes ≡ take n (pending s) ++ drop n p
  pub left : pending r.rest ≡ drop n (pending s)

-- What `read` promises of a non-empty view.
abbrev pub Reads {ℓ} : {S : Type ℓ} → (List ℕ → S → ReadReply S) → (S → List ℕ) → Type ℓ
Reads {S = S} reader pending =
    (p : List ℕ) (s : S)
    → 0 < length p
    → AtEof pending p s (reader p s) ⊎ Delivered pending p s (reader p s)

module _ {ℓ} {S : Type ℓ} (reader : List ℕ → S → ReadReply S) (pending : S → List ℕ) where
  -- The view after a read, behind what was filled before.
  abbrev after : ℕ → List ℕ → S → List ℕ
  after offset target s = take offset target ++ (reader (drop offset target) s).bytes

  read_round :
      (allow : Bool) (fuel offset : ℕ) (target : List ℕ) (s : S)
      → ltb offset (length target) ≡ true
      → length (after offset target s) ≡ length target
      → (d : Delivered pending (drop offset target) s (reader (drop offset target) s))
      → read_loop reader allow (suc fuel) offset target s
        ≡ read_loop reader allow fuel
            (offset + d.n)
            (after offset target s)
            (reader (drop offset target) s).rest
  read_round allow fuel offset target s more same d =
      let fits : d.n ≤ length target - offset = omega (arith, length-drop offset target, d.fits) in
      let accepted = assert_count_lem d.n (length target - offset) read d.positive fits in
      unfold read_loop on_count advance in rw (more, d.counted, same, accepted)

  eof_round :
      (allow : Bool) (fuel offset : ℕ) (target : List ℕ) (s : S)
      → ltb offset (length target) ≡ true
      → AtEof pending (drop offset target) s (reader (drop offset target) s)
      → read_loop reader allow (suc fuel) offset target s ≡ (
          if (offset == 0) && allow
          then returned false target (reader (drop offset target) s).rest
          else failed
              (unexpected_eof offset (length target))
              target
              (reader (drop offset target) s).rest)
  eof_round allow fuel offset target s more e =
      unfold read_loop on_count in rw (more, e.counted, e.kept, take-append-drop offset target)

  Delivered-length :
      (offset : ℕ) (target : List ℕ) (s : S)
      → offset ≤ length target
      → Delivered pending (drop offset target) s (reader (drop offset target) s)
      → length (after offset target s) ≡ length target
  Delivered-length offset target s le d =
      rw
        (
          length-append (take offset target) (reader (drop offset target) s).bytes,
          d.bytes,
          length-append (take d.n (pending s)) (drop d.n (drop offset target)),
        )
        (omega (
          arith,
          length-take offset target,
          length-take d.n (pending s),
          length-drop d.n (drop offset target),
          length-drop offset target,
          d.fits,
          d.there,
        ))

  Delivered-take :
      (offset : ℕ) (target : List ℕ) (s : S)
      → offset ≤ length target
      → (d : Delivered pending (drop offset target) s (reader (drop offset target) s))
      → take (offset + d.n) (after offset target s) ≡ take offset target ++ take d.n (pending s)
  Delivered-take offset target s le d =
      let front = take offset target in
      let new = take d.n (pending s) in
      rw (d.bytes, sym (append_assoc front new (drop d.n (drop offset target))))
        (take-append (front ++ new) (drop d.n (drop offset target)) (offset + d.n) (
          rw (length-append front new)
            (omega (arith, length-take offset target, length-take d.n (pending s), d.there))))

  abbrev Filled : ReadOutcome S → List ℕ → List ℕ → Type ℓ
  Filled o target rest = (s : S) × (o ≡ returned true target s) × (pending s ≡ rest)

  stopped :
      (allow : Bool) (fuel offset : ℕ) (target : List ℕ) (s : S)
      → ltb offset (length target) ≡ false
      → read_loop reader allow fuel offset target s ≡ returned true target s
  unfolding read_loop
  stopped allow zero offset target s stop = rw stop
  stopped allow (suc fuel) offset target s stop = rw stop

  stopped-Filled :
      (allow : Bool) (fuel offset : ℕ) (target : List ℕ) (s : S)
      → length target ≤ offset
      → Filled
          (read_loop reader allow fuel offset target s)
          (take offset target ++ take (length target - offset) (pending s))
          (drop (length target - offset) (pending s))
  stopped-Filled allow fuel offset target s h =
      let none_left : length target - offset ≡ 0 = omega arith in
      let full : target ≡ take offset target ++ take (length target - offset) (pending s) =
        rw (none_left, take_all offset target h) (sym (append-nil target)) in
      (
        s,
        stopped allow fuel offset target s (ground arith) ∙ ap (λ t. returned true t s) full,
        rw none_left,
      )

  joined :
      (offset : ℕ) (target : List ℕ) (s : S)
      → offset ≤ length target
      → (d : Delivered pending (drop offset target) s (reader (drop offset target) s)) → (m k : ℕ)
      → k ≡ d.n + m
      → take (offset + d.n) (after offset target s)
          ++ take m (pending (reader (drop offset target) s).rest)
        ≡ take offset target ++ take k (pending s)
  joined offset target s le d m k e =
      rw (Delivered-take offset target s le d, d.left)
        (append_assoc (take offset target) (take d.n (pending s)) (take m (drop d.n (pending s)))
          ∙ ap (λ t. take offset target ++ t) (take_add d.n m k (pending s) e))

  read_loop-Filled :
      Reads reader pending
      → (allow : Bool) (fuel offset : ℕ) (target : List ℕ) (s : S) → offset ≤ length target
      → length target ≤ offset + fuel
      → length target - offset ≤ length (pending s)
      → Filled
          (read_loop reader allow fuel offset target s)
          (take offset target ++ take (length target - offset) (pending s))
          (drop (length target - offset) (pending s))
  read_loop-Filled reads allow zero offset target s le enough there =
      stopped-Filled allow zero offset target s (omega arith)
  read_loop-Filled reads allow (suc fuel) offset target s le enough there =
      elim (Bool-cases (ltb offset (length target))) [
        | inl more ↦
            let lt = ltb→lt offset (length target) more in
            let rest = length-drop offset target in
            elim (reads (drop offset target) s (omega arith)) [
              | inl e ↦
                  let none_left : length (pending s) ≡ 0 = rw e.nothing in absurd (omega arith)
              | inr d ↦
                  let target' : List ℕ = after offset target s in
                  let same = Delivered-length offset target s le d in
                  let fits = d.fits in
                  let available = length-drop d.n (pending s) in
                  let remaining = ap length d.left in
                  let s' : S = (reader (drop offset target) s).rest in
                  let split : length target - offset ≡ d.n + (length target' - (offset + d.n)) =
                    omega arith in
                  let (s'', ends, left) =
                    read_loop-Filled reads allow fuel (offset + d.n) target' s' (omega arith)
                      (omega arith) (omega arith) in
                  (
                    s'',
                    read_round allow fuel offset target s more same d
                        ∙ ends
                        ∙ ap (λ t. returned true t s'') (joined offset target s le d _ _ split),
                    left
                        ∙ ap (drop (length target' - (offset + d.n))) d.left
                        ∙ drop-drop d.n _ _ (pending s) split,
                  )
            ]
        | inr all ↦ stopped-Filled allow (suc fuel) offset target s (ground arith)
      ]

  exactly_loop :
      (allow : Bool) (target : List ℕ) (s : S)
      → read_exactly reader allow target s ≡ read_loop reader allow (length target) 0 target s
  exactly_loop allow target s = elim (Bool-cases (length target == 0)) [
    | inl empty ↦
        let stop = stopped allow (length target) 0 target s (ground arith) in
        unfold read_exactly in rw empty (sym stop)
    | inr filled ↦ unfold read_exactly in rw filled
  ]

  -- With a reader that delivers a stream in parts, and as many bytes ahead as the target has,
  -- `readExactly` comes to its end, returns true, has filled the target with the first bytes of the
  -- stream, and leaves the rest of the stream.
  pub read_exactly_fills :
      Reads reader pending
      → (allow : Bool) (target : List ℕ) (s : S) → length target ≤ length (pending s)
      → (s' : S) × (read_exactly reader allow target s
          ≡ returned true (take (length target) (pending s)) s')
        × (pending s' ≡ drop (length target) (pending s))
  read_exactly_fills reads allow target s there =
      let all : length target - 0 ≡ length target = omega arith in
      let (s', ends, left) =
        subst
          (λ n.
            Filled (read_loop reader allow (length target) 0 target s) (take n (pending s))
              (drop n (pending s)))
          all
          (read_loop-Filled reads allow (length target) 0 target s (omega arith) (omega arith)
            (omega arith)) in
      (s', exactly_loop allow target s ∙ ends, left)

  -- What a stream that ends early makes of `readExactly`.
  abbrev pub Short : Bool → ℕ → ℕ → ReadOutcome S → Type ℓ
  Short allow available wanted o =
      (target : List ℕ) × (s : S) × (o ≡ (
        if (available == 0) && allow
        then returned false target s
        else failed (unexpected_eof available wanted) target s))

  reshape :
      (allow : Bool) (n n' wanted wanted' : ℕ) {o o' : ReadOutcome S}
      → o' ≡ o
      → n ≡ n'
      → wanted ≡ wanted'
      → Short allow n wanted o
      → Short allow n' wanted' o'
  reshape allow n n' wanted wanted' {o' = o'} e total same h =
      subst (λ m. Short allow m wanted' o') total
        (subst (λ w. Short allow n w o') same (subst (Short allow n wanted) (sym e) h))

  read_loop-Short :
      Reads reader pending
      → (allow : Bool) (fuel offset : ℕ) (target : List ℕ) (s : S) → offset ≤ length target
      → length target ≤ offset + fuel
      → offset + length (pending s) < length target
      → Short allow
          (offset + length (pending s))
          (length target)
          (read_loop reader allow fuel offset target s)
  read_loop-Short reads allow zero offset target s le enough short = absurd (omega arith)
  read_loop-Short reads allow (suc fuel) offset target s le enough short =
      let more : ltb offset (length target) ≡ true = ground arith in
      let rest = length-drop offset target in
      elim (reads (drop offset target) s (omega arith)) [
        | inl e ↦
            let none_left : length (pending s) ≡ 0 = rw e.nothing in
            let here : offset + length (pending s) ≡ offset = omega arith in
            (
              target,
              (reader (drop offset target) s).rest,
              rw here (eof_round allow fuel offset target s more e),
            )
        | inr d ↦
            let same = Delivered-length offset target s le d in
            let fits = d.fits in
            let s' : S = (reader (drop offset target) s).rest in
            let there = d.there in
            let available = length-drop d.n (pending s) in
            let remaining = ap length d.left in
            let total : offset + d.n + length (pending s') ≡ offset + length (pending s) =
              omega arith in
            reshape allow _ _ _ _ (read_round allow fuel offset target s more same d) total same (
              read_loop-Short reads allow fuel (offset + d.n) (after offset target s) s'
                (omega arith) (omega arith) (omega arith))
      ]

  -- With a reader that delivers a stream in parts, and fewer bytes ahead than the target has,
  -- `readExactly` comes to its end: it returns false if there is no byte at all and the clean end is
  -- allowed, and throws `UnexpectedEofError` with the number of bytes there were and the target's
  -- length otherwise.
  pub read_exactly-Short :
      Reads reader pending
      → (allow : Bool) (target : List ℕ) (s : S) → length (pending s) < length target
      → Short allow (length (pending s)) (length target) (read_exactly reader allow target s)
  read_exactly-Short reads allow target s short =
      reshape allow _ _ _ _ (exactly_loop allow target s) (the_same (length (pending s))) refl (
        read_loop-Short reads allow (length target) 0 target s (omega arith) (omega arith)
          (omega arith))
    where
      the_same : (n : ℕ) → 0 + n ≡ n
      the_same n = omega arith
