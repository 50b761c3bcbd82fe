-- ===== src/CatFile.antt =====
-- The git backend's object store: `catFile.read`, `listBlobs` and a reader of `feedBlobsCatFile` in
-- main.go, on the output of `git cat-file`.
pub mod Decimal
pub mod Blobs
pub mod Listing
pub mod Listed
use git_spdx.Common.{
  ℕ, zero, suc, ◌+◌, ◌-◌, ◌*◌, ◌/◌, ◌%◌, Bool, true, false, not, ◌&&◌, ◌||◌, Option, none, some,
  List, [], ◌∷◌, ◌++◌, leb, ltb, ◌==◌, if◌then◌else◌, Bytes, codes, equal, cut, length, drop, Error,
  bad_size, bad_header, buffer_full, out_of_fuel, panicked, Result, ok, err, ◌>>=◌,
}
use git_spdx.Stream.{Stream, is_eof, Chunk, found, ended, read_string, read_full}
use git_spdx.Text.{fields, trim_space}
use git_spdx.Scan.{Job, Event, skip, send}
use git_spdx.Options.{Whole, natural, negative}

-- The digits of a number in front of the end of the text.
unfoldable pub parse_digits : ℕ → Bytes → Option ℕ
parse_digits n [] = some n
parse_digits n (b ∷ bs) =
    let rest = parse_digits (n * 10 + (b - b'0')) bs in
    if leb b'0' b && leb b b'9' then rest else none

-- 2 ^ 63
abbrev pub int64_limit : ℕ
int64_limit = 9223372036854775808

unfoldable pub parse_natural : Bytes → Option ℕ
parse_natural [] = none
parse_natural (b ∷ bs) = parse_digits 0 (b ∷ bs)

-- The number with its sign, if it has 64 bits.
unfoldable pub signed : Bool → ℕ → Option Whole
signed false n = if ltb n int64_limit then some (natural n) else none
signed true zero = some (natural zero)
signed true (suc n) = if ltb n int64_limit then some (negative n) else none

unfoldable pub parse_signed : Bytes → Option Whole
parse_signed [] = none
parse_signed (b ∷ bs) =
    let minus = b == b'-' in
    if minus || b == b'+'
    then elim (parse_natural bs) [ none ↦ none | some n ↦ signed minus n ]
    else elim (parse_natural (b ∷ bs)) [ none ↦ none | some n ↦ signed false n ]

-- `strconv.Atoi`, and `strconv.ParseInt` in base 10.
unfoldable pub parse_int : Bytes → Result Whole
parse_int s = elim (parse_signed s) [ none ↦ err (bad_size s) | some n ↦ ok n ]

-- `Discard(n)` and `io.CopyN(io.Discard, r, n)`: what is behind the bytes.
unfoldable pub discard : ℕ → Stream → Result Stream
discard n r =
    if leb n (length r.bytes)
    then ok (record { bytes = drop n r.bytes; stop = r.stop })
    else err r.stop

-- What `read` returns; the content is empty where it was passed over.
pub record Answer : Type 0 where
  pub kind : Bytes
  pub size : ℕ
  pub content : Bytes

-- The content of an object that is no larger than its limit.
unfoldable pub take_content : Bytes → ℕ → Stream → Result (Answer × Stream)
take_content kind n r = do
  (content, r') ← read_full n r
  r'' ← discard 1 r'
  ok (record { kind = kind; size = n; content = content }, r'')

unfoldable pub pass_content : Bytes → ℕ → Stream → Result (Answer × Stream)
pass_content kind n r = do
  r' ← discard n r
  r'' ← discard 1 r'
  ok (record { kind = kind; size = n; content = [] }, r'')

-- The content and the newline behind it. A slice cannot be made with a negative length.
unfoldable pub read_content : Bytes → Whole → ℕ → Stream → Result (Answer × Stream)
read_content kind (negative n) limit r = err panicked
read_content kind (natural n) limit r =
    if leb n limit then take_content kind n r else pass_content kind n r

unfoldable pub read_answer : Bytes → List Bytes → ℕ → Stream → Result (Answer × Stream)
read_answer header (oid ∷ kind ∷ size ∷ more) limit r = do
  n ← parse_int size
  read_content kind n limit r
read_answer header parts limit r = err (bad_header header)

unfoldable pub read_line : Bytes → ℕ → Stream → Result (Answer × Stream)
read_line header limit r = read_answer header (fields (trim_space header)) limit r

-- `read`; `asked` is the error of writing the request.
unfoldable pub read : Option Error → ℕ → Stream → Result (Answer × Stream)
read (some e) limit r = err e
read none limit r = elim (read_string b'\n' r) [
  | ended s e ↦ err e
  | found line r' ↦ read_line (line ++ (b'\n' ∷ [])) limit r'
]

-- What a reader of `feedBlobsCatFile` makes of an answer.
unfoldable pub answer_events : ℕ → Bytes → Answer → List Event
answer_events cap oid a =
    if not (equal a.kind (codes "blob"))
    then []
    else if ltb cap a.size
    then skip oid ∷ []
    else send (record { oid = oid; content = a.content }) ∷ []

-- The loop of a reader over the blobs that it gets, on the output of its process.
unfoldable pub read_blobs : (Bytes → ℕ) → List Bytes → Stream → List Event × Option Error
read_blobs limit [] r = ([], none)
read_blobs limit (oid ∷ oids) r = elim (read none (limit oid) r) [
  | err e ↦ ([], some e)
  | ok (a, r') ↦
      let (events, failure) = read_blobs limit oids r' in
      (answer_events (limit oid) oid a ++ events, failure)
]
