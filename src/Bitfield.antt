-- ===== src/Bitfield.antt =====
-- packages/core/src/core/bitfield.ts: the packed bit array of the pieces that a peer has. The
-- buffer is a list of bytes, an index is an integer.
pub mod Bytes
pub mod Raw
pub mod Laws
pub mod Count
mod Tests
use browsertorrent.Common.{
  ℕ, zero, suc, ◌+◌, ◌-◌, ◌/◌, ◌%◌, ◌^◌, bit_and, bit_or, Bool, true, false, ◌&&◌, not, List, ◌++◌,
  ltb, leb, ◌==◌, if◌then◌else◌, Result, ok, err, ◌>>=◌, ◌>>◌, guard, length, get_or, replicate,
  set as set_elem,
}
use browsertorrent.Common.Int.{ℤ, pos, negsuc}
use Prim.Native.Nat.{max}

-- `code` of a `BitfieldError`
pub data BitfieldError : Type 0 where
  invalid_buffer_length spare_bits_non_zero negative_index index_out_of_range : BitfieldError

-- `grow?: boolean | number`: `false`, `true` or a number of bits.
pub data Grow : Type 0 where
  fixed growing : Grow
  by : ℕ → Grow

pub record Bitfield : Type 0 where
  pub buffer : List ℕ
  pub length : ℕ
  pub grow : Grow

-- `Math.ceil(length / 8)`
abbrev pub byte_length : ℕ → ℕ
byte_length n = (n + 7) / 8

-- `128 >> bitIndex`
abbrev pub mask : ℕ → ℕ
mask k = 128 / 2 ^ k

-- `(byte & (128 >> k)) !== 0`, `byte | (128 >> k)` and `byte & ~(128 >> k)`, `~` on 32 bits.
pub test_bit : ℕ → ℕ → Bool
test_bit b k = not (bit_and b (mask k) == 0)

pub or_bit : ℕ → ℕ → ℕ
or_bit b k = bit_or b (mask k)

pub clear_bit : ℕ → ℕ → ℕ
clear_bit b k = bit_and b (4294967295 - mask k)

pub new : ℕ → Grow → Bitfield
new n grow = record { buffer = replicate (byte_length n) 0; length = n; grow = grow }

-- `(8 - (length % 8)) % 8` and `(1 << spareBits) - 1`
abbrev pub spare_bits : ℕ → ℕ
spare_bits n = (8 - n % 8) % 8

pub spare_clear : ℕ → ℕ → Bool
spare_clear b spare = bit_and b (2 ^ spare - 1) == 0

pub from_bytes : List ℕ → ℕ → Grow → Result BitfieldError Bitfield
from_bytes buffer n grow = do
  guard (length buffer == byte_length n) invalid_buffer_length
  let last : ℕ = get_or buffer (length buffer - 1) 0
  guard (if ltb 0 (spare_bits n) then spare_clear last (spare_bits n) else true) spare_bits_non_zero
  ok (record { buffer = buffer; length = n; grow = grow })

-- The bit behind an index, wherever the index lies; a byte that is not there reads as 0.
pub raw_bit : List ℕ → ℕ → Bool
raw_bit buffer i = test_bit (get_or buffer (i / 8) 0) (i % 8)

pub get : Bitfield → ℤ → Bool
get bf (negsuc n) = false
get bf (pos i) = if leb bf.length i then false else raw_bit bf.buffer i

-- `#resize`
pub resize : Bitfield → ℕ → Bitfield
resize bf n = record bf {
  buffer = bf.buffer ++ replicate (byte_length n - length bf.buffer) 0;
  length = n;
}

pub set_raw : List ℕ → ℕ → List ℕ
set_raw buffer i = set_elem buffer (i / 8) (or_bit (get_or buffer (i / 8) 0) (i % 8))

pub clear_raw : List ℕ → ℕ → List ℕ
clear_raw buffer i = set_elem buffer (i / 8) (clear_bit (get_or buffer (i / 8) 0) (i % 8))

abbrev set_in_range : Bitfield → ℕ → Bitfield
set_in_range bf i = record bf { buffer = set_raw bf.buffer i }

-- What `set` does at an index at or past the end.
pub grown_length : Grow → ℕ → ℕ → Result BitfieldError ℕ
grown_length fixed n i = err index_out_of_range
grown_length growing n i = ok (i + 1)
grown_length (by step) n i = ok (max (n + step) (i + 1))

pub set : Bitfield → ℤ → Result BitfieldError Bitfield
set bf (negsuc n) = err negative_index
set bf (pos i) =
    if leb bf.length i
    then (do n ← grown_length bf.grow bf.length i; ok (set_in_range (resize bf n) i))
    else ok (set_in_range bf i)

pub unset : Bitfield → ℤ → Bitfield
unset bf (negsuc n) = bf
unset bf (pos i) = if leb bf.length i then bf else record bf { buffer = clear_raw bf.buffer i }

-- The loop of `count`: the rounds left, the index and the count so far.
pub count_loop : Bitfield → ℕ → ℕ → ℕ → ℕ
count_loop bf zero i acc = acc
count_loop bf (suc n) i acc = count_loop bf n (i + 1) (if get bf (pos i) then acc + 1 else acc)

pub count : Bitfield → ℕ
count bf = count_loop bf bf.length 0 0

pub to_buffer : Bitfield → List ℕ
to_buffer bf = bf.buffer
