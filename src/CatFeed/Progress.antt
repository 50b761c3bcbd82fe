-- ===== src/CatFeed/Progress.antt =====
-- The steps that a state of the git backend's feeder can make.
use git_spdx.Common.{
  ℕ, ◌≡◌, ◌⊎◌, inl, inr, refl, sym, ap, eof, Option, none, List, [], ◌∷◌, ◌++◌, Bytes, length,
  Error, Bool-cases, List-cases, Result-cases, arith,
}
use git_spdx.Common.Member.{Member}
use git_spdx.Stream.{Stream}
use git_spdx.CatFile.Listing.{ListedBlob}
use git_spdx.CatFeed.{
  shard_count, is_larger, Phase, listed, offering, closed, Reader, opening, waiting, asking, gone,
  State, start, ask, Step, skip_large, offer_blob, send_blob, give_up, end_list, open_process,
  receive, take_answer, fail_read, leave, Run,
}
use git_spdx.CatFeed.Placed.{Placed, Run-Placed, start-Placed, shard_count_positive}
use git_spdx.CatFeed.Ends.{IsDone, some_gone}

abbrev HasReader : List Reader → Reader → Type 0
HasReader rs r = (front : List Reader) × (back : List Reader) × (rs ≡ front ++ r ∷ back)

abbrev AllGone : List Reader → Type 0
AllGone rs = (r : Reader) → Member r rs → r ≡ gone

-- A reader that is not gone.
abbrev Awake : Reader → Type 0
Awake gone = ⊥
Awake _ = Unit

readers-cases : (rs : List Reader) → ((r : Reader) × (Awake r × HasReader rs r)) ⊎ AllGone rs
readers-cases [] = inr (λ r m. absurd m)
readers-cases (opening ∷ rs) = inl (opening, (tt, ([], rs, refl)))
readers-cases (waiting r ∷ rs) = inl (waiting r, (tt, ([], rs, refl)))
readers-cases (asking b r ∷ rs) = inl (asking b r, (tt, ([], rs, refl)))
readers-cases (gone ∷ rs) = elim (readers-cases rs) [
  | inl (r, (awake, (front, back, p))) ↦ inl (r, (awake, (gone ∷ front, back, λ i. gone ∷ p i)))
  | inr all ↦ inr (λ r m. elim m [ inl same ↦ sym same | inr later ↦ all r later ])
]

Phase-cases : (p : Phase) → (p ≡ listed) ⊎ (((b : ListedBlob) × (p ≡ offering b)) ⊎ (p ≡ closed))
Phase-cases listed = inl refl
Phase-cases (offering b) = inr (inl (b, refl))
Phase-cases closed = inr (inr refl)

module _ (serve : Bytes → Bytes) (limit : Bytes → ℕ) where
  abbrev pub Moves : State → Type 0
  Moves s = (t : State) × Step serve limit s t

  -- `listBlobs` between two callbacks.
  list_steps : (s : State) → s.phase ≡ listed → Moves s
  list_steps s p = elim (List-cases s.upcoming) [
    | inl q ↦ (_, end_list p q)
    | inr (b, bs, q) ↦ elim (Bool-cases (is_larger b.size (limit b.oid))) [
      | inl large ↦ (_, skip_large b bs p q large)
      | inr small ↦ (_, offer_blob b bs p q small)
    ]
  ]

  waiting_steps : (s : State) (r : Stream) → HasReader s.readers (waiting r) → Moves s
  waiting_steps s r (front, back, p) = elim (List-cases s.queue) [
    | inr (b, queue, q) ↦ (_, receive b queue r front back q p)
    | inl empty ↦ elim (Phase-cases s.phase) [
      | inl q ↦ list_steps s q
      | inr (inl (b, q)) ↦ (_, send_blob b q (ground (arith, ap length empty)))
      | inr (inr q) ↦ (_, leave r front back q empty p)
    ]
  ]

  asking_steps :
      (s : State) (b : ListedBlob) (r : Stream) → HasReader s.readers (asking b r) → Moves s
  asking_steps s b r (front, back, p) = elim (Result-cases (ask serve limit none b r)) [
    | inl ((a, r'), q) ↦ (_, take_answer b r r' none a front back p q)
    | inr (x, q) ↦ (_, fail_read b r none x front back p q)
  ]

  reader_steps : (s : State) (r : Reader) → Awake r → HasReader s.readers r → Moves s
  reader_steps s opening awake (front, back, p) = (_, open_process eof front back p)
  reader_steps s (waiting r) awake h = waiting_steps s r h
  reader_steps s (asking b r) awake h = asking_steps s b r h
  reader_steps s gone awake h = absurd awake

  gone_steps : (s : State) → Placed s → AllGone s.readers → IsDone s ⊎ Moves s
  gone_steps s i all = elim (Phase-cases s.phase) [
    | inl q ↦ inr (list_steps s q)
    | inr (inr q) ↦ inl (record { is_closed = q; all_gone = all })
    | inr (inl (b, q)) ↦ elim (List-cases s.failures) [
      | inr (f, fs, e) ↦ inr (_, give_up b eof f fs q e)
      | inl none_yet ↦
          absurd (cc (q, (i.at_leave none_yet (some_gone s.readers i.some_readers all)).0))
    ]
  ]

  -- Every state that a feeder reaches, whatever its options, the machine and what git lists, is its end
  -- or has a next step, be there errors or not.
  pub Run-Moves :
      (readers processors : ℕ) (list : List ListedBlob × Option Error) (s : State)
      → Run serve limit (start (shard_count readers processors) list) s
      → IsDone s ⊎ Moves s
  Run-Moves readers processors list s run =
      let i = Run-Placed serve limit run (
        start-Placed (shard_count readers processors) list
          (shard_count_positive readers processors)) in
      elim (readers-cases s.readers) [
        | inl (r, (awake, h)) ↦ inr (reader_steps s r awake h)
        | inr all ↦ gone_steps s i all
      ]
