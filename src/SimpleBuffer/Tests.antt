-- ===== src/SimpleBuffer/Tests.antt =====
-- A buffer of four bytes with three unread, written out.
use browsertorrent.Common.{◌+◌, ◌≡◌, ◌≤◌, ◌<◌, refl, [], ◌∷◌, ok, err, arith}
use browsertorrent.Common.Words.{nat}
use browsertorrent.SimpleBuffer.{
  SimpleBuffer, compact, grow, make_room, doubled, shift, write, read_bytes, capacity_exceeded,
  not_enough,
}
use browsertorrent.SimpleBuffer.Laws.{IsValid, content}
use browsertorrent.SimpleBuffer.Queue.{write_lem, read_bytes_lem}

abbrev small : SimpleBuffer
small = record { buf = 1 ∷ 2 ∷ 3 ∷ 4 ∷ []; read_pos = 1; write_pos = 4; max_capacity = 8 }

abbrev shifted : SimpleBuffer
shifted = record { buf = 2 ∷ 3 ∷ 4 ∷ 4 ∷ []; read_pos = 0; write_pos = 3; max_capacity = 8 }

compacts : compact small ≡ shifted
unfolding compact shift
compacts = refl

writes :
    write (5 ∷ []) small
    ≡ ok (record { buf = 2 ∷ 3 ∷ 4 ∷ 5 ∷ []; read_pos = 0; write_pos = 4; max_capacity = 8 })
unfolding write grow make_room shift
writes = refl

refuses : write (5 ∷ 6 ∷ 7 ∷ 8 ∷ 9 ∷ 10 ∷ []) small ≡ err capacity_exceeded
unfolding write grow
refuses = refl

doubles : doubled 100 64 100 ≡ 128
unfolding doubled
doubles = refl

abbrev small-IsValid : IsValid small
small-IsValid = record { ordered = omega arith; inside = omega arith; bounded = omega arith }

write_lem_example :
    (3 + 2 ≤ 8
      → (c : SimpleBuffer) × (write (5 ∷ 6 ∷ []) small ≡ ok c)
        × IsValid c
        × (content c ≡ 2 ∷ 3 ∷ 4 ∷ 5 ∷ 6 ∷ [])
        × (c.max_capacity ≡ 8))
    × (8 < 3 + 2 → write (5 ∷ 6 ∷ []) small ≡ err capacity_exceeded)
write_lem_example = write_lem (5 ∷ 6 ∷ []) small small-IsValid

read_bytes_lem_example :
    (2 ≤ 3
      → (c : SimpleBuffer) × (read_bytes (nat 2) small ≡ ok (2 ∷ 3 ∷ [], c))
        × IsValid c
        × (content c ≡ 4 ∷ [])
        × (c.max_capacity ≡ 8))
    × (3 < 2 → read_bytes (nat 2) small ≡ err not_enough)
read_bytes_lem_example = read_bytes_lem 2 small small-IsValid (omega arith)
