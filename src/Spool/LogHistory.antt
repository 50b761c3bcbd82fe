-- ===== src/Spool/LogHistory.antt =====
-- `spoolLogHistory` as a whole: what the log sees is the history without its merges, and the legal
-- blobs are those of all of it.
use git_spdx.Common.{
  ◌≡◌, refl, sym, ap, ◌∙◌, Bool, Option, none, List, [], ◌∷◌, map, Bytes, All, Error, eof, ok,
  ◌>>=◌, >>=-eq-ok, if◌then◌else◌, arith,
}
use git_spdx.Common.Dict.{Dict}
use git_spdx.Change.{Change, record_legal_change}
use git_spdx.Spool.{
  Device, HistorySpool, fresh, write, ready, replay, SpoolState, spool_visit, spooled,
  spool_log_history,
}
use git_spdx.Spool.RoundTrip.{without_merge, FitsInt, replay-write}
use mathlib.Core.List.{foldl}

-- The changes of commits that are no merges.
abbrev pub plain : List Change → List Change
plain [] = []
plain (c ∷ cs) = if c.merge then plain cs else c ∷ plain cs

map-without_merge-plain : (cs : List Change) → map without_merge (plain cs) ≡ plain cs
map-without_merge-plain [] = refl
map-without_merge-plain (c ∷ cs) = ground (arith, map-without_merge-plain cs)

plain-FitsInt : (cs : List Change) → All FitsInt cs → All FitsInt (plain cs)
plain-FitsInt [] h = tt
plain-FitsInt (c ∷ cs) h = ground (arith, plain-FitsInt cs h.1)

module _ (is_legal_path : Bytes → Bool) (d : Device) where
  foldl-spool_visit :
      (cs : List Change) (s : HistorySpool) (legal : Dict Bytes Bool)
      → foldl (spool_visit is_legal_path d) (s, legal) cs
        ≡ (foldl (write d) s (plain cs), foldl (record_legal_change is_legal_path) legal cs)
  unfolding spool_visit
  foldl-spool_visit [] s legal = refl
  foldl-spool_visit (c ∷ cs) s legal =
      let legal' = record_legal_change is_legal_path legal c in
      ground (arith, foldl-spool_visit cs s legal', foldl-spool_visit cs (write d s c) legal')

  module _ (walk : (SpoolState → Change → SpoolState) → SpoolState → SpoolState × Option Error)
      (cs : List Change)
      (walked : walk (spool_visit is_legal_path d) (fresh, [])
        ≡ (foldl (spool_visit is_legal_path d) (fresh, []) cs, none)) where
    spool_log_history-ready : spool_log_history is_legal_path d none walk ≡ (
        ready d (foldl (write d) fresh (plain cs)) >>= λ contents.
        ok (contents, foldl (record_legal_change is_legal_path) [] cs))
    unfolding spool_log_history
    spool_log_history-ready =
        ap (spooled is_legal_path d) (walked ∙ ap (λ x. (x, none)) (foldl-spool_visit cs fresh []))

    -- If the history was walked and the spool got ready, replaying it visits the changes of commits
    -- that are no merges, in order, and the legal blobs are those of all changes.
    pub spool_log_history_lem {ℓ} :
        {S : Type ℓ} (visit : S → Change → S) (s : S) (contents : Bytes) (legal : Dict Bytes Bool)
        → All FitsInt cs
        → spool_log_history is_legal_path d none walk ≡ ok (contents, legal)
        → (replay visit s (record { bytes = contents; stop = eof })
            ≡ (foldl visit s (plain cs), none))
          × (legal ≡ foldl (record_legal_change is_legal_path) [] cs)
    spool_log_history_lem visit s contents legal fits e =
        let (got, is_ready, same) =
          >>=-eq-ok (ready d (foldl (write d) fresh (plain cs)))
            (λ k. ok (k, foldl (record_legal_change is_legal_path) [] cs))
            (sym spool_log_history-ready ∙ e) in
        let replayed = replay-write visit d (plain cs) got s (plain-FitsInt cs fits) is_ready in
        (ground (arith, map-without_merge-plain cs), cc)
