-- ===== src/Scan/Feed.antt =====
-- What the feeder sends and skips, and how large its batches get.
use git_spdx.Common.{
  ℕ, suc, ◌+◌, ◌<◌, ◌≡◌, ◌⊎◌, inl, inr, refl, sym, ap, ◌∙◌, true, false, none, List, [], ◌∷◌, ◌++◌,
  map, append-nil, append_assoc, ltb, if◌then◌else◌, Bytes, length, All, Error, ok, arith,
  Bool-cases,
}
use git_spdx.Stream.{is_eof}
use git_spdx.Tree.{and_then}
use git_spdx.Scan.{
  Job, Event, skip, send, StoredBlob, Feeder, new_feeder, flush, make_room, put_in, flush_full,
  append_job, read_blob, feed_one, feed_serial,
}

-- The jobs among the events, and the blobs that are skipped.
unfoldable pub sent : List Event → List Job
sent [] = []
sent (skip oid ∷ es) = sent es
sent (send job ∷ es) = job ∷ sent es

unfoldable pub skips : List Event → List Bytes
skips [] = []
skips (skip oid ∷ es) = oid ∷ skips es
skips (send job ∷ es) = skips es

pub length-sent : (es : List Event) → length (sent es) + length (skips es) ≡ length es
unfolding sent skips
length-sent [] = refl
length-sent (skip oid ∷ es) = omega (arith, length-sent es)
length-sent (send job ∷ es) = omega (arith, length-sent es)

sent-append : (es fs : List Event) → sent (es ++ fs) ≡ sent es ++ sent fs
unfolding sent
sent-append [] fs = refl
sent-append (skip oid ∷ es) fs = sent-append es fs
sent-append (send job ∷ es) fs = ap (◌∷◌ job) (sent-append es fs)

skips-append : (es fs : List Event) → skips (es ++ fs) ≡ skips es ++ skips fs
unfolding skips
skips-append [] fs = refl
skips-append (skip oid ∷ es) fs = ap (◌∷◌ oid) (skips-append es fs)
skips-append (send job ∷ es) fs = skips-append es fs

sent-send : (js : List Job) → sent (map send js) ≡ js
unfolding sent
sent-send [] = refl
sent-send (j ∷ js) = ap (◌∷◌ j) (sent-send js)

skips-send : (js : List Job) → skips (map send js) ≡ []
unfolding skips
skips-send [] = refl
skips-send (j ∷ js) = skips-send js

-- What is sent or waits in the batch, what is skipped, and the total.
abbrev Told : Type 0
Told = List Job × List Bytes × ℕ

abbrev told : Feeder → Told
told s = (sent s.events ++ s.batch, skips s.events, s.total)

batch-flush : (s : Feeder) → (flush s).batch ≡ []
unfolding flush
batch-flush s = refl

told-flush : (s : Feeder) → told (flush s) ≡ told s
unfolding flush
told-flush s = rw (
  sent-append s.events (map send s.batch),
  skips-append s.events (map send s.batch),
  sent-send s.batch,
  skips-send s.batch,
  append-nil (sent s.events ++ s.batch),
  append-nil (skips s.events),
)

told-make_room : (job : Job) (s : Feeder) → told (make_room job s) ≡ told s
unfolding make_room
told-make_room job s = ground (arith, told-flush s)

told-flush_full : (s : Feeder) → told (flush_full s) ≡ told s
unfolding flush_full
told-flush_full s = ground (arith, told-flush s)

-- A job more.
abbrev more_job : Job → Told → Told
more_job job (js, oids, n) = (js ++ (job ∷ []), oids, n)

told-append_job : (job : Job) (s : Feeder) → told (append_job job s) ≡ more_job job (told s)
unfolding append_job put_in
told-append_job job s =
    told-flush_full (put_in job (make_room job s))
    ∙ ap (λ js. (js, skips (make_room job s).events, (make_room job s).total))
        (sym (append_assoc (sent (make_room job s).events) (make_room job s).batch (job ∷ [])))
    ∙ ap (more_job job) (told-make_room job s)

abbrev pub job_of : StoredBlob → Job
job_of o = record { oid = o.oid; content = o.content }

-- A blob is too large, or it can be read.
unfoldable pub IsReadable : (Bytes → ℕ) → StoredBlob → Type 0
IsReadable limit o =
    (limit o.oid < o.size)
    ⊎ ((o.open_error ≡ none) × (o.read_error ≡ none) × (o.close_error ≡ none))

module _ (limit : Bytes → ℕ) where
  -- The jobs of the blobs within their limit, and the other blobs.
  unfoldable pub accepted : List StoredBlob → List Job
  accepted [] = []
  accepted (o ∷ os) =
      let rest = accepted os in if ltb (limit o.oid) o.size then rest else job_of o ∷ rest

  unfoldable pub rejected : List StoredBlob → List Bytes
  rejected [] = []
  rejected (o ∷ os) =
      let rest = rejected os in if ltb (limit o.oid) o.size then o.oid ∷ rest else rest

  pub length-accepted :
      (os : List StoredBlob) → length (accepted os) + length (rejected os) ≡ length os
  unfolding accepted rejected
  length-accepted [] = refl
  length-accepted (o ∷ os) = ground (arith, length-accepted os)

  feed_one_large :
      (o : StoredBlob) (s : Feeder)
      → ltb (limit o.oid) o.size ≡ true
      → feed_one limit o s
        ≡ (record s { total = s.total + 1; events = s.events ++ (skip o.oid ∷ []) }, none)
  unfolding feed_one
  feed_one_large o s large = rw large refl

  feed_one_small :
      (o : StoredBlob) (s : Feeder)
      → ltb (limit o.oid) o.size ≡ false
      → read_blob o ≡ ok o.content
      → feed_one limit o s ≡ (append_job (job_of o) (record s { total = s.total + 1 }), none)
  unfolding feed_one
  feed_one_small o s small r = rw (small, r) refl

  IsReadable-read_blob :
      (o : StoredBlob)
      → IsReadable limit o
      → ltb (limit o.oid) o.size ≡ false
      → read_blob o ≡ ok o.content
  unfolding IsReadable read_blob
  IsReadable-read_blob o (inl large) small = ground arith
  IsReadable-read_blob o (inr (a, b, c)) small = rw (a, b, c) refl

  told-skip :
      (o : StoredBlob) (s : Feeder)
      → told (record s { total = s.total + 1; events = s.events ++ (skip o.oid ∷ []) })
        ≡ (sent s.events ++ s.batch, skips s.events ++ (o.oid ∷ []), s.total + 1)
  unfolding sent skips
  told-skip o s =
      rw
        (
          sent-append s.events (skip o.oid ∷ []),
          skips-append s.events (skip o.oid ∷ []),
          append-nil (sent s.events),
        )
        refl

  -- What is told after the blobs.
  unfoldable grow : List StoredBlob → Told → Told
  grow os (js, oids, n) = (js ++ accepted os, oids ++ rejected os, n + length os)

  plus_zero : (n : ℕ) → n + 0 ≡ n
  plus_zero n = omega arith

  plus_suc : (n k : ℕ) → n + 1 + k ≡ n + suc k
  plus_suc n k = omega arith

  grow-none : (t : Told) → grow [] t ≡ t
  unfolding grow accepted rejected
  grow-none (js, oids, n) = rw (append-nil js, append-nil oids, plus_zero n) refl

  grow_large :
      (o : StoredBlob) (os : List StoredBlob) (js : List Job) (oids : List Bytes) (n : ℕ)
      → ltb (limit o.oid) o.size ≡ true
      → grow os (js, oids ++ (o.oid ∷ []), n + 1) ≡ grow (o ∷ os) (js, oids, n)
  unfolding grow accepted rejected
  grow_large o os js oids n large =
      rw (large, append_assoc oids (o.oid ∷ []) (rejected os), plus_suc n (length os)) refl

  grow_small :
      (o : StoredBlob) (os : List StoredBlob) (js : List Job) (oids : List Bytes) (n : ℕ)
      → ltb (limit o.oid) o.size ≡ false
      → grow os (js ++ (job_of o ∷ []), oids, n + 1) ≡ grow (o ∷ os) (js, oids, n)
  unfolding grow accepted rejected
  grow_small o os js oids n small =
      rw (small, append_assoc js (job_of o ∷ []) (accepted os), plus_suc n (length os)) refl

  feed_serial-step :
      (o : StoredBlob) (os : List StoredBlob) (stop : Error) (s s' : Feeder)
      → feed_one limit o s ≡ (s', none)
      → feed_serial limit (o ∷ os) stop s ≡ feed_serial limit os stop s'
  unfolding feed_serial and_then
  feed_serial-step o os stop s s' e = rw e refl

  feed_serial-flush :
      (stop : Error) (s : Feeder)
      → is_eof stop ≡ true
      → feed_serial limit [] stop s ≡ (flush s, none)
  unfolding feed_serial
  feed_serial-flush stop s f = rw f refl

  -- The feeder goes on from any state: what it tells grows by the jobs and the skipped blobs.
  feed_serial_from :
      (os : List StoredBlob) (stop : Error) (s : Feeder)
      → All (IsReadable limit) os
      → is_eof stop ≡ true
      → (s' : Feeder) × (feed_serial limit os stop s ≡ (s', none))
        × (s'.batch ≡ [])
        × (told s' ≡ grow os (told s))
  feed_serial_from [] stop s r f =
      (flush s, feed_serial-flush stop s f, batch-flush s, told-flush s ∙ sym (grow-none (told s)))
  feed_serial_from (o ∷ os) stop s (now, r) f = elim (Bool-cases (ltb (limit o.oid) o.size)) [
    | inl large ↦
        let next = record s { total = s.total + 1; events = s.events ++ (skip o.oid ∷ []) } in
        let (s', run, empty, t) = feed_serial_from os stop next r f in
        (
          s',
          feed_serial-step o os stop s next (feed_one_large o s large) ∙ run,
          empty,
          t
              ∙ ap (grow os) (told-skip o s)
              ∙ grow_large o os (sent s.events ++ s.batch) (skips s.events) s.total large,
        )
    | inr small ↦
        let next = append_job (job_of o) (record s { total = s.total + 1 }) in
        let (s', run, empty, t) = feed_serial_from os stop next r f in
        (
          s',
          feed_serial-step o os stop s next
                (feed_one_small o s small (IsReadable-read_blob o now small))
              ∙ run,
          empty,
          t
              ∙ ap (grow os) (told-append_job (job_of o) (record s { total = s.total + 1 }))
              ∙ grow_small o os (sent s.events ++ s.batch) (skips s.events) s.total small,
        )
  ]

  -- If every blob is too large or can be read, the feeder ends without an error: it has sent the blobs
  -- within their limit, in order and with their content, skipped the others in order, and counted all.
  pub feed_serial_lem :
      (os : List StoredBlob) (stop : Error)
      → All (IsReadable limit) os
      → is_eof stop ≡ true
      → (s : Feeder) × (feed_serial limit os stop new_feeder ≡ (s, none))
        × (sent s.events ≡ accepted os)
        × (skips s.events ≡ rejected os)
        × (s.total ≡ length os)
  unfolding grow sent skips
  feed_serial_lem os stop r f =
      let (s, run, empty, t) = feed_serial_from os stop new_feeder r f in
      (
        s,
        run,
        sym (append-nil (sent s.events))
            ∙ ap (λ b. sent s.events ++ b) (sym empty)
            ∙ ap (λ k. k.0) t,
        ap (λ k. k.1) t,
        ap (λ k. k.2) t ∙ (omega arith),
      )
