-- ===== src/Collect/Ends.antt =====
-- How a parallel collection ends.
use git_spdx.Common.{
  ℕ, ◌<◌, ◌≡◌, ◌≢◌, inl, inr, ◌↔◌, refl, sym, ◌∙◌, Bytes, bytes_eq, Option, none, some, List, [],
  ◌∷◌, Eq, Error,
}
use git_spdx.Common.Member.{Member}
use git_spdx.Tree.{Library}
use git_spdx.Collect.{Todo, calls, closed, Worker, gone, State, start, Run, outcome}
use git_spdx.Collect.Cover.{Stored}
use git_spdx.Collect.Blobs.{IsLegalBlob, Stored-IsLegalBlob}
use git_spdx.Collect.Held.{InQueue, InWorker, InWorkers, HeldBy}
use git_spdx.Collect.Invariant.{Holds-moved, Run-Unbroken, start-Unbroken}
use git_spdx.Collect.Placed.{Placed, Run-Placed, start-Placed}
use mathlib.Core.Path.{subst}

-- `wg.Wait()` has returned.
pub record IsDone {Hash : Type 0} (s : State Hash) : Type 0 where
  pub is_closed : s.phase ≡ closed
  pub all_gone : (w : Worker Hash) → Member w s.workers → w ≡ gone

-- A call has no error exactly if neither the walk nor a worker has one.
outcome-none :
    {Hash : Type 0} (s : State Hash)
    → outcome s ≡ none
    → (s.walk_error ≡ none) × (s.first_error ≡ none)
unfolding outcome
outcome-none s p = of_walk s.walk_error refl
  where
    of_walk : (o : Option Error) → s.walk_error ≡ o → (s.walk_error ≡ none) × (s.first_error ≡ none)
    of_walk none q = (q, sym (rw q refl) ∙ p)
    of_walk (some x) q = absurd (cc (q, p))

gone-InWorkers :
    {Hash : Type 0} (u : Todo Hash) (ws : List (Worker Hash))
    → ((w : Worker Hash) → Member w ws → w ≡ gone)
    → ¬ InWorkers u ws
gone-InWorkers u [] all m = m
gone-InWorkers u (w ∷ ws) all (inl m) = subst (InWorker u) (all w (inl refl)) m
gone-InWorkers u (w ∷ ws) all (inr m) = gone-InWorkers u ws (λ v n. all v (inr n)) m

pub some_gone :
    {Hash : Type 0} (ws : List (Worker Hash))
    → ws ≢ []
    → ((w : Worker Hash) → Member w ws → w ≡ gone)
    → Member gone ws
some_gone [] some_workers all = absurd (some_workers refl)
some_gone (w ∷ ws) some_workers all = inl (all w (inl refl))

module _ {Hash : Type 0} ⦃e : Eq Hash⦄ (g : Library Hash) (walk_end : Option Error) where
  -- Nothing waits at an end without an error.
  none_held :
      (s : State Hash)
      → Placed g walk_end s
      → IsDone s
      → outcome s ≡ none
      → (u : Todo Hash) → ¬ HeldBy u s
  none_held s i done p u m =
      let (walk, workers) = outcome-none s p in
      let (upcoming, batch, ended) = i.at_close done.is_closed walk in
      let (closed_too, queue) =
        i.at_leave workers (some_gone s.workers i.some_workers done.all_gone) in
      elim m [
        | inl a ↦ subst (λ hs. Member u (calls hs)) upcoming a
        | inr (inl b) ↦ subst (λ hs. Member u (calls hs)) batch b
        | inr (inr (inl q)) ↦ subst (InQueue u) queue q
        | inr (inr (inr w)) ↦ gone-InWorkers u s.workers done.all_gone w
      ]

  -- However the workers take turns, a collection that ends without an error holds the blobs that the
  -- trees of the walk, and the trees below them, name as files, with a legal name or under a legal
  -- directory, and no other; and the walk has ended without an error.
  pub Run-IsLegalBlob :
      (Top : Hash → Type 0) (count : ℕ) (trees : List Hash) (s : State Hash)
      → 0 < count
      → ((h : Hash) → Top h ↔ Member h trees)
      → Run g walk_end (start count trees) s
      → IsDone s
      → outcome s ≡ none
      → (walk_end ≡ none) × ((text : Bytes) → Stored s.collector text ↔ IsLegalBlob g Top text)
  Run-IsLegalBlob Top count trees s workers top r done p =
      let i = Run-Placed g walk_end r (start-Placed g walk_end count trees workers) in
      let (walk, none_yet) = outcome-none s p in
      let holds = Run-Unbroken g Top walk_end r (start-Unbroken g Top count trees top) none_yet in
      let nowhere = λ (u : Todo Hash). none_held s i done p u in
      let final =
        Holds-moved g Top s.collector (λ u. HeldBy u s) (λ u. ⊥) (λ u. (nowhere u, λ z. absurd z))
          holds in
      (
        (i.at_close done.is_closed walk).2,
        Stored-IsLegalBlob g Top s.collector final.sound final.covered
            (λ h t. elim (final.tops h t) [ inl claimed ↦ claimed | inr z ↦ absurd z ]),
      )
