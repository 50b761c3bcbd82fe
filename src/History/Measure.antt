-- ===== src/History/Measure.antt =====
-- What the parallel walk has still to do gets less with every step.
use git_spdx.Common.{
  ℕ, ◌+◌, ◌*◌, ◌<◌, ◌≡◌, inl, inr, refl, ap, Bool, true, Option, none, some, List, [], ◌∷◌, ◌++◌,
  if◌then◌else◌, length, Eq, Error, ok, arith, Bool-cases,
}
use git_spdx.Common.Count.{count_if, sum_of, sum_of-append, sum_of-middle}
use git_spdx.Change.{Change}
use git_spdx.History.{Node, Trees, visit_task}
use git_spdx.History.Stream.{
  Status, waiting, queued, working, ready, is_waiting, is_queued, is_working, Task, State, Step,
  announce, enqueue, exhaust, iterator_fails, filled, begin, finish, take_changes, take_error,
  complete,
}

abbrev status_weight : Status → ℕ
status_weight waiting = 5
status_weight queued = 4
status_weight working = 3
status_weight (ready r) = 2

abbrev task_weight : {Hash : Type 0} → Task Hash → ℕ
task_weight t = status_weight t.1

abbrev still_open : Option (Option Error) → ℕ
still_open none = 1
still_open (some x) = 0

-- Steps that may still come.
abbrev pub measure : {Hash Tree S : Type 0} → State Hash Tree S → ℕ
measure s =
    7 * length s.upcoming
    + sum_of task_weight s.pending
    + (if s.filling then 1 else 0)
    + (if s.exhausted then 0 else 1)
    + still_open s.ended

-- The first task that passes a test.
pub first_such :
    {Hash : Type 0} (p : Status → Bool) (ts : List (Task Hash))
    → 0 < count_if (λ t. p t.1) ts
    → (front : List (Task Hash)) × (n : Node Hash) × (st : Status) × (back : List (Task Hash)) × (ts
        ≡ front ++ (n, st) ∷ back)
      × (p st ≡ true)
      × (count_if (λ t. p t.1) front ≡ 0)
unfolding count_if
first_such p [] f = absurd (omega arith)
first_such p ((n, st) ∷ ts) f = elim (Bool-cases (p st)) [
  | inl yes_now ↦ ([], n, st, ts, refl, yes_now, refl)
  | inr later ↦
      let (front, m, st', back, e, q, zero_before) = first_such p ts (ground arith) in
      ((n, st) ∷ front, m, st', back, ap (◌∷◌ (n, st)) e, q, ground arith)
]

pub working_only : (st : Status) → is_working st ≡ true → st ≡ working
working_only working q = refl
working_only waiting q = cc
working_only queued q = cc
working_only (ready r) q = cc

pub queued_only : (st : Status) → is_queued st ≡ true → st ≡ queued
queued_only queued q = refl
queued_only waiting q = cc
queued_only working q = cc
queued_only (ready r) q = cc

pub waiting_only : (st : Status) → is_waiting st ≡ true → st ≡ waiting
waiting_only waiting q = refl
waiting_only queued q = cc
waiting_only working q = cc
waiting_only (ready r) q = cc

replaced_task :
    {Hash : Type 0} (ts front : List (Task Hash)) (t t' : Task Hash) (back : List (Task Hash))
    → ts ≡ front ++ t ∷ back
    → sum_of task_weight (front ++ t' ∷ back) + task_weight t
      ≡ sum_of task_weight ts + task_weight t'
replaced_task ts front t t' back e = omega (
  arith,
  ap (sum_of task_weight) e,
  sum_of-middle task_weight front t back,
  sum_of-middle task_weight front t' back,
)

pending_cons :
    {Hash : Type 0} (t : Task Hash) (ts : List (Task Hash))
    → sum_of task_weight (t ∷ ts) ≡ task_weight t + sum_of task_weight ts
unfolding sum_of
pending_cons t ts = refl

pending_single : {Hash : Type 0} (t : Task Hash) → sum_of task_weight (t ∷ []) ≡ task_weight t
unfolding sum_of
pending_single t = omega arith

module _ {Hash Tree S : Type 0} ⦃e : Eq Hash⦄ (g : Trees Hash Tree) (merges : Bool)
    (visit : S → Change → S) (workers : ℕ) (stop : Error) where
  pub Step-measure :
      {s t : State Hash Tree S} → Step g merges visit workers stop s t → measure t < measure s
  Step-measure {s} (announce n ns f room more up) = omega (
    arith,
    ap length up,
    sum_of-append task_weight s.pending ((n, waiting) ∷ []),
    pending_single (n, waiting),
  )
  Step-measure {s} (enqueue n front back o p room) =
      omega (arith, replaced_task s.pending front (n, waiting) (n, queued) back p)
  Step-measure {s} (exhaust f room more up q) = ground arith
  Step-measure {s} (iterator_fails (o, f, w) room more up q) = ground arith
  Step-measure {s} (filled (o, f, w) enough) = ground arith
  Step-measure {s} (begin n front back o p first room) =
      omega (arith, replaced_task s.pending front (n, queued) (n, working) back p)
  Step-measure {s} (finish n front back o p) = omega (
    arith,
    replaced_task s.pending front (n, working) (n, ready (visit_task g merges n s.cache).0) back p,
  )
  Step-measure {s} (take_changes n cs rest o f p) =
      ground (arith, ap (sum_of task_weight) p, pending_cons (n, ready (ok cs)) rest)
  Step-measure {s} (take_error n x rest o f p) = ground arith
  Step-measure {s} (complete o f p) = ground arith
