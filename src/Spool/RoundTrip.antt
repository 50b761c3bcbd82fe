-- ===== src/Spool/RoundTrip.antt =====
-- What the spool file holds after the writes, and what its replay visits.
use git_spdx.Common.{
  ℕ, zero, suc, ◌≤◌, ◌<◌, ◌≡◌, refl, sym, ◌∙◌, false, none, List, [], ◌∷◌, ◌++◌, map, append-nil,
  append_assoc, Bytes, length, drop, All, Error, eof, ok, arith, length-append,
}
use git_spdx.Stream.{Stream, put_uvarint, read_uvarint, uvarint_loop}
use git_spdx.Stream.Varint.{read_uvarint-put_uvarint, put_uvarint_pos, read_full-append}
use git_spdx.Change.{Change}
use git_spdx.Spool.{
  Device, HistorySpool, fresh, max_int, spool_fields, write_spool_string, write_fields, write,
  ready, read_spool_string, read_fields, spooled_change, replay_loop, replay,
}
use mathlib.Core.List.{foldl}

-- The bytes of one string, of a list of strings and of a list of changes.
abbrev pub encode_string : Bytes → Bytes
encode_string f = put_uvarint (length f) ++ f

abbrev pub encode_strings : List Bytes → Bytes
encode_strings [] = []
encode_strings (f ∷ fs) = encode_string f ++ encode_strings fs

abbrev pub encode_changes : List Change → Bytes
encode_changes [] = []
encode_changes (c ∷ cs) = encode_strings (spool_fields c) ++ encode_changes cs

write_fields-encode :
    (d : Device) (fs : List Bytes) (out : Bytes)
    → (write_fields d out fs).1 ≡ none
    → (write_fields d out fs).0 ≡ out ++ encode_strings fs
unfolding write_fields write_spool_string
write_fields-encode d [] out e = sym (append-nil out)
write_fields-encode d (f ∷ fs) out e =
    let sized = out ++ put_uvarint (length f) in
    ground (
      arith,
      write_fields-encode d fs (sized ++ f),
      append_assoc out (put_uvarint (length f)) f,
      append_assoc out (encode_string f) (encode_strings fs),
    )

write-encode :
    (d : Device) (s : HistorySpool) (c : Change)
    → (write d s c).failure ≡ none
    → (s.failure ≡ none) × ((write d s c).written ≡ s.written ++ encode_strings (spool_fields c))
unfolding write
write-encode d s c e =
    unfold write_fields in ground (arith, write_fields-encode d (spool_fields c) s.written)

writes-encode :
    (d : Device) (cs : List Change) (s : HistorySpool)
    → (foldl (write d) s cs).failure ≡ none
    → (s.failure ≡ none) × ((foldl (write d) s cs).written ≡ s.written ++ encode_changes cs)
writes-encode d [] s e = (e, sym (append-nil s.written))
writes-encode d (c ∷ cs) s e =
    let (mid, last) = writes-encode d cs (write d s c) e in
    let (good, step) = write-encode d s c mid in (good, last ∙ rw (step, append_assoc))

-- If the spool gets ready, its contents are the encoding of every change that was written.
pub ready-write :
    (d : Device) (cs : List Change) (contents : Bytes)
    → ready d (foldl (write d) fresh cs) ≡ ok contents
    → contents ≡ encode_changes cs
unfolding ready
ready-write d cs contents e = ground (arith, writes-encode d cs fresh)

read_spool_string-encode :
    (f rest : Bytes) (stop : Error)
    → length f ≤ max_int
    → read_spool_string (record { bytes = encode_string f ++ rest; stop = stop })
      ≡ ok (f, record { bytes = rest; stop = stop })
unfolding read_spool_string
read_spool_string-encode f rest stop h =
    rw (append_assoc, read_uvarint-put_uvarint (length f) (f ++ rest) stop (omega arith))
      (ground (arith, read_full-append f rest stop))

read_fields-encode :
    (fs : List Bytes) (rest : Bytes) (stop : Error)
    → All (λ f. length f ≤ max_int) fs
    → read_fields (length fs) (record { bytes = encode_strings fs ++ rest; stop = stop })
      ≡ ok (fs, record { bytes = rest; stop = stop })
unfolding read_fields
read_fields-encode [] rest stop h = refl
read_fields-encode (f ∷ fs) rest stop h =
    rw (append_assoc, read_spool_string-encode f (encode_strings fs ++ rest) stop h.0)
      (rw (read_fields-encode fs rest stop h.1))

-- `merge` is not written: the changes of merges are left out before.
abbrev pub without_merge : Change → Change
without_merge c = record c { merge = false }

abbrev pub FitsInt : Change → Type 0
FitsInt c = All (λ f. length f ≤ max_int) (spool_fields c)

module _ {ℓ} {S : Type ℓ} (visit : S → Change → S) where
  pub replay_loop_step :
      (fuel : ℕ) (s : S) (r : Stream) {r' r'' : Stream} {commit : Bytes} {fields : List Bytes}
      → read_spool_string r ≡ ok (commit, r')
      → read_fields 7 r' ≡ ok (fields, r'')
      → replay_loop visit (suc fuel) s r
        ≡ replay_loop visit fuel (visit s (spooled_change commit fields)) r''
  unfolding replay_loop
  replay_loop_step fuel s r e f = rw (replay_loop, e) (rw f)

  -- `tail` is what follows the changes, and ends the replay.
  pub replay_loop-encode :
      (tail : Bytes) (stop : Error)
      → ((fuel : ℕ) (s : S)
          → 0 < fuel
          → replay_loop visit fuel s (record { bytes = tail; stop = stop }) ≡ (s, none))
      → (cs : List Change) (fuel : ℕ) (s : S) → All FitsInt cs
      → length (encode_changes cs) < fuel
      → replay_loop visit fuel s (record { bytes = encode_changes cs ++ tail; stop = stop })
        ≡ (foldl visit s (map without_merge cs), none)
  unfolding spooled_change
  replay_loop-encode tail stop ends [] fuel s h f = ends fuel s (omega arith)
  replay_loop-encode tail stop ends (c ∷ cs) zero s h f = absurd (omega arith)
  replay_loop-encode tail stop ends (c ∷ cs) (suc fuel) s (h, hs) f =
      let more = encode_changes cs ++ tail in
      let fields = encode_strings (drop 1 (spool_fields c)) in
      rw (append_assoc (encode_strings (spool_fields c)) (encode_changes cs) tail) (
        replay_loop_step fuel s _
          (rw append_assoc (read_spool_string-encode c.commit (fields ++ more) stop h.0))
          (read_fields-encode (drop 1 (spool_fields c)) more stop h.1)
        ∙ replay_loop-encode tail stop ends cs fuel (visit s (without_merge c)) hs (
            omega (
              arith,
              put_uvarint_pos (length c.commit),
              length-append (encode_strings (spool_fields c)) (encode_changes cs),
              length-append (encode_string c.commit) fields,
              length-append (put_uvarint (length c.commit)) c.commit,
            )))

  replay_nothing :
      (fuel : ℕ) (s : S)
      → 0 < fuel
      → replay_loop visit fuel s (record { bytes = []; stop = eof }) ≡ (s, none)
  unfolding replay_loop read_spool_string read_uvarint uvarint_loop
  replay_nothing zero s f = absurd (omega arith)
  replay_nothing (suc fuel) s f = refl

  replay-encode :
      (cs : List Change) (s : S)
      → All FitsInt cs
      → replay visit s (record { bytes = encode_changes cs; stop = eof })
        ≡ (foldl visit s (map without_merge cs), none)
  unfolding replay
  replay-encode cs s h = rw (append-nil (encode_changes cs)) at (
      replay_loop-encode [] eof replay_nothing cs (suc (length (encode_changes cs))) s h
        (omega arith))

  -- What was written by a spool that got ready is visited again, in order and whole.
  pub replay-write :
      (d : Device) (cs : List Change) (contents : Bytes) (s : S)
      → All FitsInt cs
      → ready d (foldl (write d) fresh cs) ≡ ok contents
      → replay visit s (record { bytes = contents; stop = eof })
        ≡ (foldl visit s (map without_merge cs), none)
  replay-write d cs contents s h e = rw (ready-write d cs contents e) (replay-encode cs s h)
