-- ===== src/CatFile/Blobs.antt =====
-- What `git cat-file --batch` writes for the objects that it is asked for, and what a reader of
-- `feedBlobsCatFile` makes of it.
use git_spdx.Common.{
  ℕ, ◌<◌, ◌≡◌, refl, ◌∙◌, none, List, [], ◌∷◌, ◌++◌, map, leb, if◌then◌else◌, Bytes, codes, equal,
  length, length-append, drop-append_length, All, Lacks, cut-append, Error, ok, arith,
}
use git_spdx.Stream.{Stream, found, read_string}
use git_spdx.Stream.Varint.{read_full-append}
use git_spdx.Text.Words.{IsWord, spaced, fields-spaced, spaced-Lacks}
use git_spdx.Text.Trim.{trim_space-spaced}
use git_spdx.Scan.{Event, StoredBlob}
use git_spdx.Scan.Feed.{sent, skips, accepted, rejected}
use git_spdx.Options.{natural}
use git_spdx.CatFile.{
  int64_limit, discard, Answer, take_content, pass_content, read_content, read_answer, read_line,
  read, answer_events, read_blobs,
}
use git_spdx.CatFile.Decimal.{decimal, decimal-IsWord, parse_int-decimal}

pub record Object : Type 0 where
  pub oid : Bytes
  pub kind : Bytes
  pub content : Bytes

abbrev heading : Object → List Bytes
heading o = o.oid ∷ o.kind ∷ decimal (length o.content) ∷ []

-- An object in front of the rest of the output.
abbrev pub print_object : Object → Bytes → Bytes
print_object o rest = spaced (heading o) ++ b'\n' ∷ (o.content ++ b'\n' ∷ rest)

abbrev pub print_objects : List Object → Bytes → Bytes
print_objects [] rest = rest
print_objects (o ∷ os) rest = print_object o (print_objects os rest)

abbrev pub IsObject : Object → Type 0
IsObject o = IsWord o.oid × IsWord o.kind × (length o.content < int64_limit)

-- The output, with the end that it comes to.
abbrev pub output : Bytes → Error → Stream
output bytes stop = record { bytes = bytes; stop = stop }

abbrev pub answer_of : ℕ → Object → Answer
answer_of limit o = record {
  kind = o.kind;
  size = length o.content;
  content = if leb (length o.content) limit then o.content else [];
}

heading-IsWord : (o : Object) → IsObject o → All IsWord (heading o)
heading-IsWord o h = (h.0, (h.1, (decimal-IsWord (length o.content), tt)))

discard-append :
    (s rest : Bytes) (stop : Error)
    → discard (length s) (output (s ++ rest) stop) ≡ ok (output rest stop)
unfolding discard
discard-append s rest stop = ground (arith, length-append s rest, drop-append_length s rest)

discard_newline :
    (rest : Bytes) (stop : Error) → discard 1 (output (b'\n' ∷ rest) stop) ≡ ok (output rest stop)
discard_newline rest stop = discard-append (b'\n' ∷ []) rest stop

read_content-print :
    (o : Object) (limit : ℕ) (rest : Bytes) (stop : Error)
    → read_content o.kind
        (natural (length o.content))
        limit
        (output (o.content ++ b'\n' ∷ rest) stop)
      ≡ ok (answer_of limit o, output rest stop)
unfolding read_content take_content pass_content
read_content-print o limit rest stop = ground (
  arith,
  read_full-append o.content (b'\n' ∷ rest) stop,
  discard-append o.content (b'\n' ∷ rest) stop,
  discard_newline rest stop,
)

read_line-print :
    (o : Object) (limit : ℕ) (rest : Bytes) (stop : Error)
    → IsObject o
    → read_line (spaced (heading o) ++ (b'\n' ∷ [])) limit (output (o.content ++ b'\n' ∷ rest) stop)
      ≡ ok (answer_of limit o, output rest stop)
unfolding read_line read_answer
read_line-print o limit rest stop h =
    rw
      (
        trim_space-spaced (heading o) (heading-IsWord o h) (omega arith),
        fields-spaced (heading o) (heading-IsWord o h),
        read_answer,
        parse_int-decimal (length o.content) h.2,
      )
      (read_content-print o limit rest stop)

read_string-line :
    (s rest : Bytes) (stop : Error)
    → Lacks b'\n' s
    → read_string b'\n' (output (s ++ b'\n' ∷ rest) stop) ≡ found s (output rest stop)
unfolding read_string
read_string-line s rest stop h = rw (read_string, cut-append b'\n' s rest h)

read-line :
    (limit : ℕ) (r r' : Stream) (line : Bytes)
    → read_string b'\n' r ≡ found line r'
    → read none limit r ≡ read_line (line ++ (b'\n' ∷ [])) limit r'
unfolding read
read-line limit r r' line e = rw (read, e)

-- An object that was written is read.
pub read-print :
    (o : Object) (limit : ℕ) (rest : Bytes) (stop : Error)
    → IsObject o
    → read none limit (output (print_object o rest) stop) ≡ ok (answer_of limit o, output rest stop)
read-print o limit rest stop h =
    read-line limit _ _ (spaced (heading o)) (
      read_string-line (spaced (heading o)) _ stop
        (spaced-Lacks b'\n' (heading o) (omega arith) (heading-IsWord o h)))
    ∙ read_line-print o limit rest stop h

abbrev pub stored_blob : Object → StoredBlob
stored_blob o = record {
  oid = o.oid;
  size = length o.content;
  content = o.content;
  open_error = none;
  read_error = none;
  close_error = none;
}

-- The blobs among the objects, as the other backend's iterator gives them.
abbrev pub stored : List Object → List StoredBlob
stored [] = []
stored (o ∷ os) = if equal o.kind (codes "blob") then stored_blob o ∷ stored os else stored os

module _ (limit : Bytes → ℕ) where
  -- What the reader makes of the objects.
  abbrev told : List Object → List Event
  told [] = []
  told (o ∷ os) = answer_events (limit o.oid) o.oid (answer_of (limit o.oid) o) ++ told os

  read_blobs-told :
      (os : List Object) (rest : Bytes) (stop : Error)
      → All IsObject os
      → read_blobs limit (map (λ o. o.oid) os) (output (print_objects os rest) stop)
        ≡ (told os, none)
  unfolding read_blobs
  read_blobs-told [] rest stop h = refl
  read_blobs-told (o ∷ os) rest stop h = rw (
    read_blobs,
    read-print o (limit o.oid) (print_objects os rest) stop h.0,
    read_blobs-told os rest stop h.1,
  )

  sent-told :
      (os : List Object)
      → (sent (told os) ≡ accepted limit (stored os))
        × (skips (told os) ≡ rejected limit (stored os))
  unfolding sent skips accepted rejected answer_events
  sent-told [] = (refl, refl)
  sent-told (o ∷ os) = ground (arith, sent-told os)

  -- A reader that asks for objects and gets what git writes for them ends without an error, and tells
  -- of the blobs among them as the serial feeder of the other backend does: it sends those within
  -- their limit, in order and with their content, and skips the others in order.
  pub read_blobs-print :
      (os : List Object) (rest : Bytes) (stop : Error)
      → All IsObject os
      → let (events, failure) =
          read_blobs limit (map (λ o. o.oid) os) (output (print_objects os rest) stop) in
        (sent events ≡ accepted limit (stored os))
        × (skips events ≡ rejected limit (stored os))
        × (failure ≡ none)
  read_blobs-print os rest stop h = ground (arith, read_blobs-told os rest stop h, sent-told os)
