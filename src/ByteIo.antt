-- ===== src/ByteIo.antt =====
-- packages/core/src/utils/byte-io.ts: reading an exact number of bytes and writing all bytes, with
-- a reader or writer that may do a part. The reader and the writer are parameters: functions from
-- the bytes of the view and the state of the source to an answer. The view's bytes are a list.
pub mod Read
pub mod Write
mod Tests
use browsertorrent.Common.{
  ℕ, zero, suc, ◌+◌, ◌-◌, Bool, true, ◌&&◌, Option, none, some, List, ◌++◌, ltb, leb, ◌==◌,
  if◌then◌else◌, Result, ok, err, length, take, drop, false,
}
use browsertorrent.Common.Int.{ℤ, pos}

-- A JavaScript number: a safe integer or something else.
pub data Count : Type 0 where
  integer : ℤ → Count
  other : Count

pub data Operation : Type 0 where
  read write : Operation

-- `InvalidByteCountError` and `UnexpectedEofError` with their fields.
pub data ByteIoError : Type 0 where
  invalid_byte_count : Operation → Count → ℕ → ByteIoError
  unexpected_eof : ℕ → ℕ → ByteIoError

-- What `read(p)` leaves: its number or `null`, the bytes of `p`, and the source.
pub record ReadReply {ℓ} (S : Type ℓ) : Type ℓ where
  pub count : Option Count
  pub bytes : List ℕ
  pub rest : S

pub record WriteReply {ℓ} (S : Type ℓ) : Type ℓ where
  pub count : Count
  pub rest : S

-- How a call ends, with the target's bytes and the source then.
pub data ReadOutcome {ℓ} (S : Type ℓ) : Type ℓ where
  returned : Bool → List ℕ → S → ReadOutcome S
  failed : ByteIoError → List ℕ → S → ReadOutcome S
  out_of_fuel : ReadOutcome S

pub data WriteOutcome {ℓ} (S : Type ℓ) : Type ℓ where
  written_all : S → WriteOutcome S
  write_failed : ByteIoError → S → WriteOutcome S
  out_of_fuel : WriteOutcome S

-- `assertCount`, which passes the count on.
pub assert_count : Count → ℕ → Operation → Result ByteIoError ℕ
assert_count (integer (pos n)) maximum operation =
    if ltb 0 n && leb n maximum
    then ok n
    else err (invalid_byte_count operation (integer (pos n)) maximum)
assert_count count maximum operation = err (invalid_byte_count operation count maximum)

module _ {ℓ} {S : Type ℓ} where
  -- The end of the loop's body: `next` is the next round.
  pub advance :
      (ℕ → List ℕ → S → ReadOutcome S) → ℕ → List ℕ → S → Result ByteIoError ℕ → ReadOutcome S
  advance next offset target s (ok n) = next (offset + n) target s
  advance next offset target s (err e) = failed e target s

  pub on_count :
      (ℕ → List ℕ → S → ReadOutcome S) → Bool → ℕ → List ℕ → S → Option Count → ReadOutcome S
  unfolding advance
  on_count next allow_clean_eof offset target s none =
      if (offset == 0) && allow_clean_eof
      then returned false target s
      else failed (unexpected_eof offset (length target)) target s
  on_count next allow_clean_eof offset target s (some count) =
      advance next offset target s (assert_count count (length target - offset) read)

  -- The loop of `readExactly`, on fuel.
  pub read_loop : (List ℕ → S → ReadReply S) → Bool → ℕ → ℕ → List ℕ → S → ReadOutcome S
  read_loop reader allow_clean_eof zero offset target s =
      if ltb offset (length target) then out_of_fuel else returned true target s
  read_loop reader allow_clean_eof (suc fuel) offset target s =
      if ltb offset (length target)
      then (let reply : ReadReply S = reader (drop offset target) s in
          on_count (λ offset' target' s'. read_loop reader allow_clean_eof fuel offset' target' s')
            allow_clean_eof offset (take offset target ++ reply.bytes) reply.rest reply.count)
      else returned true target s

  -- `readExactly`: a round reads a byte at least, so that the length is fuel enough.
  pub read_exactly : (List ℕ → S → ReadReply S) → Bool → List ℕ → S → ReadOutcome S
  read_exactly reader allow_clean_eof target s =
      if length target == 0
      then returned true target s
      else read_loop reader allow_clean_eof (length target) 0 target s

  pub advance_write : (ℕ → S → WriteOutcome S) → ℕ → S → Result ByteIoError ℕ → WriteOutcome S
  advance_write next offset s (ok n) = next (offset + n) s
  advance_write next offset s (err e) = write_failed e s

  -- The loop of `writeAll`, on fuel.
  pub write_loop : (List ℕ → S → WriteReply S) → List ℕ → ℕ → ℕ → S → WriteOutcome S
  write_loop writer bytes zero offset s =
      if ltb offset (length bytes) then out_of_fuel else written_all s
  write_loop writer bytes (suc fuel) offset s =
      if ltb offset (length bytes)
      then (let reply : WriteReply S = writer (drop offset bytes) s in
          advance_write (λ offset' s'. write_loop writer bytes fuel offset' s') offset reply.rest
            (assert_count reply.count (length bytes - offset) write))
      else written_all s

  -- `writeAll`
  pub write_all : (List ℕ → S → WriteReply S) → List ℕ → S → WriteOutcome S
  write_all writer bytes s = write_loop writer bytes (length bytes) 0 s
