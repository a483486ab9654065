-- ===== src/SimpleBuffer.antt =====
-- packages/core/src/utils/simple-buffer.ts: the growable byte buffer with a position to read at and
-- a position to write at. The storage is a list of bytes.
pub mod Laws
pub mod Queue
mod Tests
use browsertorrent.Common.{
  ℕ, zero, suc, ◌+◌, ◌-◌, ◌*◌, Bool, not, Option, none, some, List, [], ◌++◌, ltb, leb, ◌==◌,
  if◌then◌else◌, Result, ok, err, ◌>>=◌, ◌>>◌, guard, length, take, drop, replicate, get_or,
}
use browsertorrent.Common.Words.{Number, nat, is_uint, to_nat}
use Prim.Native.Nat.{max}

-- The `RangeError`s, `out_of_bounds` that of `Uint8Array.set`.
pub data SimpleBufferError : Type 0 where
  invalid_capacity invalid_length not_enough empty capacity_exceeded out_of_bounds :
      SimpleBufferError

pub record SimpleBuffer : Type 0 where
  pub buf : List ℕ
  pub read_pos : ℕ
  pub write_pos : ℕ
  pub max_capacity : ℕ

-- `Number.MAX_SAFE_INTEGER`
abbrev pub max_safe_integer : ℕ
max_safe_integer = 9007199254740991

abbrev pub default_max_buffer_capacity : ℕ
default_max_buffer_capacity = 16 * 1024 * 1024

abbrev pub initial_size : ℕ
initial_size = 64

-- `options.maxCapacity ?? DEFAULT_MAX_BUFFER_CAPACITY`
abbrev pub capacity_or_default : Option Number → Number
capacity_or_default none = nat default_max_buffer_capacity
capacity_or_default (some capacity) = capacity

pub new : Option Number → Result SimpleBufferError SimpleBuffer
new option = do
  let capacity : Number = capacity_or_default option
  guard (is_uint max_safe_integer capacity) invalid_capacity
  guard (ltb 0 (to_nat capacity)) invalid_capacity
  ok (record {
    buf = replicate initial_size 0;
    read_pos = 0;
    write_pos = 0;
    max_capacity = to_nat capacity;
  })

-- The getter `length`.
abbrev pub unread : SimpleBuffer → ℕ
unread b = b.write_pos - b.read_pos

pub has_next : SimpleBuffer → Bool
has_next b = ltb 0 (unread b)

pub reset : SimpleBuffer → SimpleBuffer
reset b = record b { buf = replicate initial_size 0; read_pos = 0; write_pos = 0 }

-- `copyWithin(0, readPos, writePos)` and the two positions.
pub shift : SimpleBuffer → SimpleBuffer
shift b = record b {
  buf = take (unread b) (drop b.read_pos b.buf) ++ drop (unread b) b.buf;
  write_pos = unread b;
  read_pos = 0;
}

pub compact : SimpleBuffer → SimpleBuffer
compact b = if b.read_pos == 0 then b else shift b

-- `while (newSize < needed) newSize *= 2`, on fuel.
pub doubled : ℕ → ℕ → ℕ → ℕ
doubled zero size needed = size
doubled (suc fuel) size needed =
    if ltb size needed then (let twice = size * 2 in doubled fuel twice needed) else size

-- The allocation of a larger storage; every round adds one at least, so that `needed` is fuel enough.
pub expand : ℕ → SimpleBuffer → SimpleBuffer
expand extra b =
    let needed : ℕ = b.write_pos + extra in
    let new_size : ℕ = doubled needed (max (length b.buf * 2) initial_size) needed in
    record b { buf = take b.write_pos b.buf ++ replicate (new_size - b.write_pos) 0 }

abbrev pub has_room : ℕ → SimpleBuffer → Bool
has_room extra b = leb extra (length b.buf - b.write_pos)

pub make_room : ℕ → SimpleBuffer → SimpleBuffer
make_room extra b =
    if has_room extra b
    then b
    else if ltb 0 b.read_pos
    then (let c : SimpleBuffer = shift b in if has_room extra c then c else expand extra c)
    else expand extra b

-- `grow` and `#grow`
pub grow : ℕ → SimpleBuffer → Result SimpleBufferError SimpleBuffer
grow extra b = do
  guard (leb (unread b + extra) b.max_capacity) capacity_exceeded
  ok (make_room extra b)

pub write : List ℕ → SimpleBuffer → Result SimpleBufferError SimpleBuffer
write bytes b = do
  c ← grow (length bytes) b
  guard (leb (c.write_pos + length bytes) (length c.buf)) out_of_bounds
  ok (record c {
    buf = take c.write_pos c.buf ++ (bytes ++ drop (c.write_pos + length bytes) c.buf);
    write_pos = c.write_pos + length bytes;
  })

pub read_bytes : Number → SimpleBuffer → Result SimpleBufferError (List ℕ × SimpleBuffer)
read_bytes len b = do
  guard (is_uint max_safe_integer len) invalid_length
  let n : ℕ = to_nat len
  if n == 0 then ok ([], b) else (do
    guard (leb n (unread b)) not_enough
    ok (take n (drop b.read_pos b.buf), record b { read_pos = b.read_pos + n }))

pub read_byte : SimpleBuffer → Result SimpleBufferError (ℕ × SimpleBuffer)
read_byte b = do
  guard (not (unread b == 0)) empty
  (bytes, b') ← read_bytes (nat 1) b
  ok (get_or bytes 0 0, b')
