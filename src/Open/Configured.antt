-- ===== src/Open/Configured.antt =====
-- How `configureGoGit` leaves the storage.
use git_spdx.Common.{
  ℕ, ◌-◌, ◌^◌, ◌≤◌, ◌<◌, ◌==◌, ==_iff, leb, true, false, not, ◌&&◌, Bool, ap, ◌∙◌, if◌then◌else◌,
  ◌≡◌, ◌⊎◌, inl, inr, ◌↔◌, refl, sym, Option, none, some, ltb, Error, Result, ok, Bool-cases, arith,
}
use git_spdx.Open.{Clone, GoGitOptions, Storage, unless_error, configure_gogit, file_size}
use git_spdx.Options.{Whole, natural, negative}

pub unless_error-eq-ok {ℓ} :
    {V : Type ℓ} (o : Option Error) (r : Result V) (v : V)
    → (unless_error o r ≡ ok v) ↔ ((o ≡ none) × (r ≡ ok v))
unfolding unless_error
unless_error-eq-ok (some x) r v = (λ p. absurd (cc p), λ (q, p). absurd (cc q))
unless_error-eq-ok none r v = (λ p. (refl, p), λ (q, p). p)

-- A `uint64` as an `int64`.
abbrev pub IsFileSize : ℕ → Whole → Type 0
IsFileSize n size =
    ((n < 2 ^ 63) × (size ≡ natural n)) ⊎ ((2 ^ 63 ≤ n) × (size ≡ negative (2 ^ 64 - n - 1)))

-- A number of shards up to one is none.
abbrev pub IsSharded : ℕ → Option ℕ → Type 0
IsSharded n shards = ((n ≤ 1) × (shards ≡ none)) ⊎ ((1 < n) × (shards ≡ some n))

file_size_iff : (n : ℕ) (size : Whole) → (size ≡ file_size n) ↔ IsFileSize n size
unfolding file_size
file_size_iff n size = ground arith

abbrev sharded : ℕ → Option ℕ
sharded n = if ltb 1 n then some n else none

sharded_iff : (n : ℕ) (shards : Option ℕ) → (shards ≡ sharded n) ↔ IsSharded n shards
sharded_iff n shards = ground arith

abbrev storage_of : GoGitOptions → Whole → Option ℕ → Storage
storage_of o size shards = record {
  maps_files = o.mmap;
  keeps_index = o.memory_index;
  cache_size = size;
  shards = shards;
}

module _ (default_size : ℕ) (o : GoGitOptions) (w : Clone) where
  -- No option asks for another storage than go-git's own.
  abbrev pub IsDefault : Type 0
  IsDefault =
      (o.memory_index ≡ false)
      × (o.mmap ≡ false)
      × (o.cache_bytes ≡ default_size)
      × (o.cache_shards ≤ 1)

  -- The storage stays as it is, or the options describe the new one and the old one could be closed.
  abbrev pub IsConfigured : Option Storage → Type 0
  IsConfigured storage =
      (IsDefault × (storage ≡ none))
      ⊎ (¬ IsDefault
          × (o.mmap ≡ true → w.chroot_error ≡ none)
          × (w.close_error ≡ none)
          × ((size : Whole) × (shards : Option ℕ) × IsFileSize o.cache_bytes size
              × IsSharded o.cache_shards shards
              × (storage
                  ≡ some (record {
                    maps_files = o.mmap;
                    keeps_index = o.memory_index;
                    cache_size = size;
                    shards = shards;
                  }))))

  abbrev keeps_storage : Bool
  keeps_storage =
      not o.memory_index && not o.mmap && (o.cache_bytes == default_size) && leb o.cache_shards 1

  keeps_storage_iff : (keeps_storage ≡ true) ↔ IsDefault
  keeps_storage_iff = ground (arith, ==_iff o.cache_bytes default_size)

  replaces_storage :
      (storage : Option Storage)
      → keeps_storage ≡ false
      → (configure_gogit default_size o w ≡ ok storage) ↔ IsConfigured storage
  unfolding configure_gogit
  replaces_storage storage replaced =
      let made = storage_of o (file_size o.cache_bytes) (sharded o.cache_shards) in
      let chroot = unless_error-eq-ok (if o.mmap then w.chroot_error else none) _ storage in
      let close = unless_error-eq-ok w.close_error (ok (some made)) storage in
      (
        λ p.
            let (rooted, q) = chroot.0 (rw replaced at p) in
            let (closed, r) = close.0 q in
            inr (
              λ d. cc (keeps_storage_iff.1 d, replaced),
              λ m. ground (arith, rooted, m),
              closed,
              (
                file_size o.cache_bytes,
                sharded o.cache_shards,
                (file_size_iff o.cache_bytes (file_size o.cache_bytes)).0 refl,
                (sharded_iff o.cache_shards (sharded o.cache_shards)).0 refl,
                cc r,
              ),
            ),
        λ u. elim u [
          | inl (d, same) ↦ absurd (cc (keeps_storage_iff.1 d, replaced))
          | inr (d, rooted, closed, (size, shards, is_size, is_sharded, same)) ↦ rw replaced (
              chroot.1 (
                ground (arith, rooted),
                close.1 (
                  closed,
                  ap ok (
                      ap some (
                        ap (λ n. storage_of o n (sharded o.cache_shards))
                          (sym ((file_size_iff o.cache_bytes size).1 is_size))
                        ∙ ap (storage_of o size)
                            (sym ((sharded_iff o.cache_shards shards).1 is_sharded)))
                      ∙ sym same),
                ),
              ))
        ],
      )

  pub configure_gogit_iff :
      (storage : Option Storage)
      → (configure_gogit default_size o w ≡ ok storage) ↔ IsConfigured storage
  unfolding configure_gogit
  configure_gogit_iff storage = elim (Bool-cases keeps_storage) [
    | inr replaced ↦ replaces_storage storage replaced
    | inl kept ↦
        let d = keeps_storage_iff.0 kept in
        (
          λ p. inl (d, cc (rw kept at p)),
          λ u. elim u [
            | inl (d', same) ↦ rw kept (ap ok (sym same))
            | inr made ↦ absurd (made.0 d)
          ],
        )
  ]
