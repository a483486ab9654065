-- ===== src/ByteIo/Tests.antt =====
-- A reader and a writer of one byte at a time.
use browsertorrent.Common.{
  ℕ, ◌≡◌, refl, true, false, some, none, List, [], ◌∷◌, ◌++◌, inl, inr, arith, take, drop,
}
use browsertorrent.Common.Int.{pos}
use browsertorrent.ByteIo.{
  integer, ReadReply, WriteReply, returned, written_all, read_exactly, write_all,
}
use browsertorrent.ByteIo.Read.{Reads, read_exactly_fills}
use browsertorrent.ByteIo.Write.{Writes, write_all_lem}

read_one : List ℕ → List ℕ → ReadReply (List ℕ)
read_one p [] = record { count = none; bytes = p; rest = [] }
read_one p (b ∷ bs) = record { count = some (integer (pos 1)); bytes = b ∷ drop 1 p; rest = bs }

abbrev all_of : List ℕ → List ℕ
all_of s = s

read_one-Reads : Reads read_one all_of
unfolding read_one
read_one-Reads p [] h = inl (record { nothing = refl; counted = refl; kept = refl; still = refl })
read_one-Reads p (b ∷ bs) h = inr (record {
  n = 1;
  positive = omega arith;
  fits = h;
  there = omega arith;
  counted = refl;
  bytes = refl;
  left = refl;
})

write_one : List ℕ → List ℕ → WriteReply (List ℕ)
write_one p s = record { count = integer (pos 1); rest = s ++ take 1 p }

write_one-Writes : Writes write_one all_of
unfolding write_one
write_one-Writes p s h = (1, omega arith, h, refl, refl)

read_exactly_fills_example :
    (s' : List ℕ) × (read_exactly read_one false (0 ∷ 0 ∷ []) (7 ∷ 8 ∷ 9 ∷ [])
      ≡ returned true (7 ∷ 8 ∷ []) s')
    × (s' ≡ 9 ∷ [])
read_exactly_fills_example =
    read_exactly_fills read_one all_of read_one-Reads false (0 ∷ 0 ∷ []) (7 ∷ 8 ∷ 9 ∷ [])
      (omega arith)

write_all_lem_example :
    (s' : List ℕ) × (write_all write_one (8 ∷ 9 ∷ []) (7 ∷ []) ≡ written_all s')
    × (s' ≡ 7 ∷ 8 ∷ 9 ∷ [])
write_all_lem_example = write_all_lem write_one all_of write_one-Writes (8 ∷ 9 ∷ []) (7 ∷ [])
