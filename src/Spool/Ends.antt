-- ===== src/Spool/Ends.antt =====
-- How `replay` ends: always, and on an input that was cut off.
use git_spdx.Common.{
  ℕ, zero, suc, ◌+◌, ◌*◌, ◌%◌, ◌≤◌, ◌<◌, ◌≡◌, ◌≢◌, none, some, List, [], ◌∷◌, ◌++◌, map, append-nil,
  Bytes, length, All, Error, eof, out_of_fuel, ok, err, arith, inl, inr, Result-cases,
  length-append,
}
use git_spdx.Stream.{Stream, uvarint_loop, put_uvarint, read_uvarint, read_full}
use git_spdx.Stream.Varint.{read_uvarint-put_uvarint, read_uvarint_shorter, read_full_shorter}
use git_spdx.Change.{Change}
use git_spdx.Spool.{max_int, read_spool_string, read_fields, spooled_change, replay_loop, replay}
use git_spdx.Spool.RoundTrip.{encode_changes, without_merge, FitsInt, replay_loop-encode}
use mathlib.Core.List.{foldl}

uvarint_loop-ne-out_of_fuel :
    (left i w x : ℕ) (bs : Bytes) (stop : Error)
    → stop ≢ out_of_fuel
    → uvarint_loop left i w x bs stop ≢ err out_of_fuel
unfolding uvarint_loop
uvarint_loop-ne-out_of_fuel zero i w x bs stop h e = cc
uvarint_loop-ne-out_of_fuel (suc left) i w x [] stop h e = ground arith
uvarint_loop-ne-out_of_fuel (suc left) i w x (b ∷ bs) stop h e =
    ground (arith, uvarint_loop-ne-out_of_fuel left (i + 1) (w * 128) (x + b % 128 * w) bs stop h)

read_uvarint-ne-out_of_fuel : (r : Stream) → r.stop ≢ out_of_fuel → read_uvarint r ≢ err out_of_fuel
unfolding read_uvarint
read_uvarint-ne-out_of_fuel r h e =
    ground (arith, uvarint_loop-ne-out_of_fuel 10 0 1 0 r.bytes r.stop h)

read_spool_string-ne-out_of_fuel :
    (r : Stream) → r.stop ≢ out_of_fuel → read_spool_string r ≢ err out_of_fuel
unfolding read_spool_string
read_spool_string-ne-out_of_fuel r h e = elim (Result-cases (read_uvarint r)) [
  | inl ((size, r'), read) ↦ unfold read_full in ground (arith, read_uvarint_shorter r size r' read)
  | inr (x, failed) ↦ ground (arith, read_uvarint-ne-out_of_fuel r h)
]

-- A string takes a byte at least, and leaves the stream's end as it was.
read_spool_string_shorter :
    (r : Stream) {s : Bytes} {r' : Stream}
    → read_spool_string r ≡ ok (s, r')
    → (length r'.bytes < length r.bytes) × (r'.stop ≡ r.stop)
unfolding read_spool_string
read_spool_string_shorter r {s} {r'} e = elim (Result-cases (read_uvarint r)) [
  | inl ((size, mid), read) ↦
      ground (arith, read_uvarint_shorter r size mid read, read_full_shorter size mid s r')
  | inr (x, failed) ↦ cc
]

read_fields_shorter :
    (n : ℕ) (r : Stream) {fs : List Bytes} {r' : Stream}
    → read_fields n r ≡ ok (fs, r')
    → (length r'.bytes ≤ length r.bytes) × (r'.stop ≡ r.stop)
unfolding read_fields
read_fields_shorter zero r e = ground arith
read_fields_shorter (suc n) r {fs} {r'} e = elim (Result-cases (read_spool_string r)) [
  | inl ((f, mid), read) ↦ elim (Result-cases (read_fields n mid)) [
    | inl ((rest, last), more) ↦
        ground (arith, read_spool_string_shorter r read, read_fields_shorter n mid more)
    | inr (x, failed) ↦ ground arith
  ]
  | inr (x, failed) ↦ cc
]

read_fields-ne-out_of_fuel :
    (n : ℕ) (r : Stream) → r.stop ≢ out_of_fuel → read_fields n r ≢ err out_of_fuel
unfolding read_fields
read_fields-ne-out_of_fuel zero r h e = cc
read_fields-ne-out_of_fuel (suc n) r h e = elim (Result-cases (read_spool_string r)) [
  | inl ((f, mid), read) ↦
      ground (arith, read_spool_string_shorter r read, read_fields-ne-out_of_fuel n mid)
  | inr (x, failed) ↦ ground (arith, read_spool_string-ne-out_of_fuel r h)
]

read_spool_string_dangling :
    (n : ℕ)
    → 0 < n
    → n ≤ max_int
    → read_spool_string (record { bytes = put_uvarint n; stop = eof }) ≡ err eof
unfolding read_spool_string read_full
read_spool_string_dangling n pos fits =
    ground (arith, read_uvarint-put_uvarint n [] eof, append-nil (put_uvarint n))

module _ {ℓ} {S : Type ℓ} (visit : S → Change → S) where
  replay_loop-ne-out_of_fuel :
      (fuel : ℕ) (s : S) (r : Stream)
      → length r.bytes < fuel
      → r.stop ≢ out_of_fuel
      → (replay_loop visit fuel s r).1 ≢ some out_of_fuel
  unfolding replay_loop
  replay_loop-ne-out_of_fuel zero s r f h e = absurd (omega arith)
  replay_loop-ne-out_of_fuel (suc fuel) s r f h e = elim (Result-cases (read_spool_string r)) [
    | inl ((commit, mid), read) ↦ elim (Result-cases (read_fields 7 mid)) [
      | inl ((fields, last), more) ↦ ground (
        arith,
        read_spool_string_shorter r read,
        read_fields_shorter 7 mid more,
        replay_loop-ne-out_of_fuel fuel (visit s (spooled_change commit fields)) last,
      )
      | inr (x, failed) ↦
          ground (arith, read_spool_string_shorter r read, read_fields-ne-out_of_fuel 7 mid)
    ]
    | inr (x, failed) ↦ ground (arith, read_spool_string-ne-out_of_fuel r h)
  ]

  -- `replay` comes to an end on every stream, well formed or not: the rounds that it is given are
  -- enough.
  pub replay-ne-out_of_fuel :
      (s : S) (r : Stream) → r.stop ≢ out_of_fuel → (replay visit s r).1 ≢ some out_of_fuel
  unfolding replay
  replay-ne-out_of_fuel s r h =
      replay_loop-ne-out_of_fuel (suc (length r.bytes)) s r (omega arith) h

  replay_loop_dangling :
      (n fuel : ℕ) (s : S)
      → 0 < n
      → n ≤ max_int
      → 0 < fuel
      → replay_loop visit fuel s (record { bytes = put_uvarint n; stop = eof }) ≡ (s, none)
  unfolding replay_loop
  replay_loop_dangling n zero s pos fits f = absurd (omega arith)
  replay_loop_dangling n (suc fuel) s pos fits f =
      rw (replay_loop, read_spool_string_dangling n pos fits)

  -- A last record of which only the length of the first field is left is passed over, as if the
  -- file ended in front of it.
  pub replay_dangling :
      (cs : List Change) (n : ℕ) (s : S)
      → All FitsInt cs
      → 0 < n
      → n ≤ max_int
      → replay visit s (record { bytes = encode_changes cs ++ put_uvarint n; stop = eof })
        ≡ (foldl visit s (map without_merge cs), none)
  unfolding replay
  replay_dangling cs n s h pos fits =
      replay_loop-encode visit (put_uvarint n) eof
        (λ fuel s f. replay_loop_dangling n fuel s pos fits f) cs
        (suc (length (encode_changes cs ++ put_uvarint n))) s h
        (omega (arith, length-append (encode_changes cs) (put_uvarint n)))
