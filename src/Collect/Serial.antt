-- ===== src/Collect/Serial.antt =====
-- What one worker collects: `collectLegalTreeRaw` for each tree of the walk.
use git_spdx.Common.{
  ℕ, zero, suc, ◌≡◌, ◌⊎◌, inl, inr, ◌↔◌, refl, sym, ap, ◌∙◌, Bool, true, false, not, Option, none,
  some, List, [], ◌∷◌, ◌++◌, Bytes, bytes_eq, Eq, Error, Result, Bool-cases, Result-cases,
}
use git_spdx.Common.Member.{Member, Member-append, append-left, append-right}
use git_spdx.Common.Dict.{Dict, lookup}
use git_spdx.Tree.{Library, Collector, new_collector, and_then, collect_legal_tree}
use git_spdx.Links.{read_commit}
use git_spdx.Walk.{push_all, is_seen, visit_loop, visit_commit_trees, legal_blobs_gogit}
use git_spdx.Walk.Reach.{
  push_all-Member, visit_loop_seen, visit_loop_wrong, visit_loop_new, record_tree, IsTree,
  visit_commit_trees_lem,
}
use git_spdx.Collect.{Todo, tree}
use git_spdx.Collect.Works.{Works, done, more, and_then-none, collect-Works}
use git_spdx.Collect.Cover.{
  Claimed, Stored, Grows, Grows-same, Covered, Covered-Next, Covered-more, start-Covered,
}
use git_spdx.Collect.Kept.{work-Next}
use git_spdx.Collect.Blobs.{
  IsTask, at_top, IsLegalBlob, Sound, work-Sound, start-Sound, Stored-IsLegalBlob,
}
use mathlib.Core.Path.{subst}

module _ {Hash : Type 0} ⦃e : Eq Hash⦄ (g : Library Hash) (Top : Hash → Type 0) where
  -- What a run of tasks leaves behind.
  record Leaves (c d : Collector Hash) (ts : List (Todo Hash)) : Type 0 where
    grows : Grows c d
    sound : Sound g Top d
    covered : Covered g d (λ u. ⊥)
    claims : (h : Hash) (b : Bool) → Member (tree h b) ts → Claimed d h b

  Works-Leaves :
      {c d : Collector Hash} {ts : List (Todo Hash)}
      → Works g c ts d
      → Sound g Top c
      → Covered g c (λ u. Member u ts)
      → ((u : Todo Hash) → Member u ts → IsTask g Top u)
      → Leaves c d ts
  Works-Leaves {c} done s cover tasks = record {
    grows = Grows-same c;
    sound = s;
    covered = cover;
    claims = λ h b m. absurd m;
  }
  Works-Leaves {c} (more {d = mid} {t = t} {ts = ts} {new = new} p w) s cover tasks =
      let n =
        work-Next g (λ u. Member u (t ∷ ts)) (λ u. Member u (new ++ ts)) t
          (λ u m. elim m [ inl same ↦ inl same | inr rest ↦ inr (append-right u new ts rest) ]) c p
          (λ u m. append-left u new ts m) in
      let (s', fresh) = work-Sound g Top t c p (tasks t (inl refl)) s in
      let later =
        Works-Leaves w s' (Covered-Next g n cover) (λ u m. elim (Member-append u new ts m) [
          | inl a ↦ fresh u a
          | inr b ↦ tasks u (inr b)
        ]) in
      record {
        grows = record {
          keys = λ h b q. later.grows.keys h b (n.grows.keys h b q);
          blobs = λ text q. later.grows.blobs text (n.grows.blobs text q);
        };
        sound = later.sound;
        covered = later.covered;
        claims = λ h b m. elim (n.trees h b m) [
          | inl claimed ↦ later.grows.keys h b claimed
          | inr waits ↦ later.claims h b waits
        ];
      }

  -- The trees are collected one after the other.
  data Visits : Collector Hash → List Hash → Collector Hash → Type 0 where
    none_left : {c : Collector Hash} → Visits c [] c
    one_more :
        {c d f : Collector Hash} {h : Hash} {hs : List Hash}
        → Works g c (tree h false ∷ []) d
        → Visits d hs f
        → Visits c (h ∷ hs) f

  record Collects (c d : Collector Hash) (hs : List Hash) : Type 0 where
    grown : Grows c d
    still_sound : Sound g Top d
    all_covered : Covered g d (λ u. ⊥)
    all_claimed : (h : Hash) → Member h hs → Claimed d h false

  Visits-Collects :
      {c d : Collector Hash} {hs : List Hash}
      → Visits c hs d
      → Sound g Top c
      → Covered g c (λ u. ⊥)
      → ((h : Hash) → Member h hs → Top h)
      → Collects c d hs
  Visits-Collects {c} none_left s cover top = record {
    grown = Grows-same c;
    still_sound = s;
    all_covered = cover;
    all_claimed = λ h m. absurd m;
  }
  Visits-Collects {c} (one_more {f = last} {h = h} w v) s cover top =
      let l = Works-Leaves w s (Covered-more g cover) (λ u m. elim m [
        | inl same ↦ subst (IsTask g Top) same (at_top (top h (inl refl)))
        | inr none_here ↦ absurd none_here
      ]) in
      let rest = Visits-Collects v l.sound l.covered (λ k m. top k (inr m)) in
      record {
        grown = record {
          keys = λ k b q. rest.grown.keys k b (l.grows.keys k b q);
          blobs = λ text q. rest.grown.blobs text (l.grows.blobs text q);
        };
        still_sound = rest.still_sound;
        all_covered = rest.all_covered;
        all_claimed = λ k m. elim m [
          | inl same ↦
              subst (λ i. Claimed last i false) same
                (rest.grown.keys h false (l.claims h false (inl refl)))
          | inr later ↦ rest.all_claimed k later
        ];
      }

  module _ (read : Hash → Bool → Result (Hash × List Hash)) (boundary : Hash → Bool)
      (depth : ℕ) where
    abbrev collect_each : Hash → Collector Hash → Collector Hash × Option Error
    collect_each top c = collect_legal_tree g depth top false c

    -- A walk that succeeds has collected the trees that it keeps where it only keeps them.
    loop-Visits :
        (fuel : ℕ) (seen stack kept : List Hash) (c d : Collector Hash)
        → visit_loop read boundary collect_each fuel seen stack c ≡ (d, none)
        → (hs : List Hash) × Visits c hs d
          × (visit_loop read boundary record_tree fuel seen stack kept ≡ (push_all hs kept, none))
    unfolding and_then push_all
    loop-Visits zero seen stack kept c d p = unfold visit_loop in absurd (cc p)
    loop-Visits (suc fuel) seen [] kept c d p =
        unfold visit_loop in ([], subst (Visits c []) (ap (λ o. o.0) p) none_left, refl)
    loop-Visits (suc fuel) seen (h ∷ stack) kept c d p = elim (Bool-cases (is_seen h seen)) [
      | inl s ↦
          let (hs, v, q) =
            loop-Visits fuel seen stack kept c d
              (sym (visit_loop_seen read boundary collect_each fuel seen h stack c s) ∙ p) in
          (hs, v, visit_loop_seen read boundary record_tree fuel seen h stack kept s ∙ q)
      | inr s ↦ elim (Result-cases (read h (not (boundary h)))) [
        | inr (x, r) ↦
            absurd (cc (visit_loop_wrong read boundary collect_each fuel seen h stack c s r, p))
        | inl ((top, parents), r) ↦
            let (mid, collected, later) =
              and_then-none g (collect_each top c) _
                (sym (visit_loop_new read boundary collect_each fuel seen h stack c s r) ∙ p) in
            let (hs, v, q) =
              loop-Visits fuel (h ∷ seen) (push_all parents stack) (top ∷ kept) mid d later in
            (
              top ∷ hs,
              one_more (collect-Works g depth top false c mid collected) v,
              visit_loop_new read boundary record_tree fuel seen h stack kept s r ∙ q,
            )
      ]
    ]

pub push_all-origin :
    {A : Type 0} (x : A) (xs stack : List A)
    → Member x (push_all xs stack)
    → Member x xs ⊎ Member x stack
unfolding push_all
push_all-origin x [] stack m = inr m
push_all-origin x (y ∷ xs) stack m = elim (push_all-origin x xs (y ∷ stack) m) [
  | inl later ↦ inl (inr later)
  | inr (inl same) ↦ inl (inl same)
  | inr (inr older) ↦ inr older
]

-- The trees of the commits that the roots reach.
abbrev pub IsTop :
    {Hash : Type 0} → ⦃e : Eq Hash⦄ → Library Hash → (Hash → Bool) → List Hash → Hash → Type 0
IsTop g boundary roots = IsTree (read_commit g) boundary roots

module _ {Hash : Type 0} ⦃e : Eq Hash⦄ (g : Library Hash) (boundary : Hash → Bool) (depth fuel : ℕ)
    (roots : List Hash) where
  abbrev Top : Hash → Type 0
  Top = IsTop g boundary roots

  abbrev each : Hash → Collector Hash → Collector Hash × Option Error
  each = collect_each g Top (read_commit g) boundary depth

  walked_collector :
      (d : Collector Hash)
      → visit_commit_trees (read_commit g) boundary each fuel roots new_collector ≡ (d, none)
      → (text : Bytes) → Stored d text ↔ IsLegalBlob g (IsTop g boundary roots) text
  unfolding visit_commit_trees
  walked_collector d p =
      let (hs, v, q) =
        loop-Visits g Top (read_commit g) boundary depth fuel [] (push_all roots []) []
          new_collector d p in
      let kept = visit_commit_trees_lem (read_commit g) boundary roots fuel (push_all hs []) q in
      let all =
        Visits-Collects g Top v (start-Sound g Top) (start-Covered g)
          (λ h m. (kept h).0 (push_all-Member h hs [] m)) in
      Stored-IsLegalBlob g Top d (Collects.still_sound all) (Collects.all_covered all) (λ h top.
        elim (push_all-origin h hs [] ((kept h).1 top)) [
          | inl m ↦ Collects.all_claimed all h m
          | inr none_here ↦ absurd none_here
        ])

  -- A collection with one worker that succeeds finds the blobs that the commits' trees, and the trees
  -- below them, name as files, with a legal name or under a legal directory, and no other.
  pub legal_blobs_gogit_lem :
      (legal : Dict Bytes Bool)
      → legal_blobs_gogit g boundary depth fuel roots ≡ (legal, none)
      → (text : Bytes)
      → (lookup text legal ≡ some true) ↔ IsLegalBlob g (IsTop g boundary roots) text
  unfolding legal_blobs_gogit
  legal_blobs_gogit_lem legal p text =
      let out = visit_commit_trees (read_commit g) boundary each fuel roots new_collector in
      subst (λ m. (lookup text m ≡ some true) ↔ IsLegalBlob g Top text) (ap (λ o. o.0) p)
        (walked_collector out.0 (λ i. (out.0, (p i).1)) text)
