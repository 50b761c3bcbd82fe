-- ===== src/Stream.antt =====
-- The readers of `bufio`, `io` and `encoding/binary` over a byte stream, as history.go and
-- history_spool.go use them.
pub mod Varint
use git_spdx.Common.{
  ℕ, zero, suc, ◌+◌, ◌*◌, ◌/◌, ◌%◌, Bool, true, false, ◌&&◌, Option, none, some, List, [], ◌∷◌, ltb,
  leb, ◌==◌, if◌then◌else◌, Bytes, cut, length, take, drop, Error, eof, unexpected_eof,
  varint_overflow, line_too_long, Result, ok, err, ◌>>=◌,
}

-- What is still to be read, and the error that a read past it gets: `eof`, or an I/O error.
pub record Stream : Type 0 where
  pub bytes : Bytes
  pub stop : Error

abbrev pub is_eof : Error → Bool
is_eof eof = true
is_eof _ = false

-- `ReadString(d)`: the bytes before `d` with what follows, or all that is left and the error.
pub data Chunk : Type 0 where
  found : Bytes → Stream → Chunk
  ended : Bytes → Error → Chunk

unfoldable pub read_string : ℕ → Stream → Chunk
read_string d r = elim (cut d r.bytes) [
  | none ↦ ended r.bytes r.stop
  | some (s, rest) ↦ found s (record { bytes = rest; stop = r.stop })
]

-- `io.ReadFull` into a buffer of `n` bytes.
unfoldable pub read_full : ℕ → Stream → Result (Bytes × Stream)
read_full n r =
    if leb n (length r.bytes)
    then ok (take n r.bytes, record { bytes = drop n r.bytes; stop = r.stop })
    else err (if ltb 0 (length r.bytes) && is_eof r.stop then unexpected_eof else r.stop)

-- The loop of `binary.ReadUvarint`: `i` bytes are read, the next one counts `w`, and at most `left`
-- more are taken.
unfoldable pub uvarint_loop : ℕ → ℕ → ℕ → ℕ → Bytes → Error → Result (ℕ × Bytes)
uvarint_loop zero i w x bs stop = err varint_overflow
uvarint_loop (suc left) i w x [] stop =
    err (if ltb 0 i && is_eof stop then unexpected_eof else stop)
uvarint_loop (suc left) i w x (b ∷ bs) stop =
    let more = uvarint_loop left (i + 1) (w * 128) (x + b % 128 * w) bs stop in
    if ltb b 128
    then (if i == 9 && ltb 1 b then err varint_overflow else ok (x + b * w, bs))
    else more

unfoldable pub read_uvarint : Stream → Result (ℕ × Stream)
read_uvarint r = do
  (x, rest) ← uvarint_loop 10 0 1 0 r.bytes r.stop
  ok (x, record { bytes = rest; stop = r.stop })

-- `binary.PutUvarint`: at most `k` bytes with the top bit set, and a last one.
unfoldable pub uvarint : ℕ → ℕ → Bytes
uvarint zero x = x ∷ []
uvarint (suc k) x =
    let rest = uvarint k (x / 128) in if ltb x 128 then x ∷ [] else (x % 128 + 128) ∷ rest

-- A uint64 takes ten bytes at most.
unfoldable pub put_uvarint : ℕ → Bytes
put_uvarint x = uvarint 9 x

-- What a `Scanner` over lines does next: it has a line, or it ends.
pub data ScannedLine : Type 0 where
  line : Bytes → Stream → ScannedLine
  finished : Option Error → ScannedLine

-- 64 KiB, the bytes that a `Scanner` holds.
abbrev pub max_line : ℕ
max_line = 65536

-- `ScanLines` takes a carriage return off the end of a line.
unfoldable pub drop_return : Bytes → Bytes
drop_return [] = []
drop_return (b ∷ []) = if b == b'\r' then [] else b ∷ []
drop_return (b ∷ c ∷ bs) = b ∷ drop_return (c ∷ bs)

-- `Scan`: a line is delivered with what is left before an error; `io.EOF` is no error.
unfoldable pub scanned : Bytes → Bytes → Error → ScannedLine
scanned text rest stop =
    if ltb (length text) max_line
    then line (drop_return text) (record { bytes = rest; stop = stop })
    else finished (some line_too_long)

unfoldable pub scan : Stream → ScannedLine
scan r = elim (cut b'\n' r.bytes) [
  | some (text, rest) ↦ scanned text rest r.stop
  | none ↦
      if ltb 0 (length r.bytes)
      then scanned r.bytes [] r.stop
      else finished (if is_eof r.stop then none else some r.stop)
]
