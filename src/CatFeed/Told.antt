-- ===== src/CatFeed/Told.antt =====
-- What there is to tell of a blob of the store, and the answer that a reader of the git backend gets.
use git_spdx.Common.{
  ℕ, ◌≡◌, refl, sym, ap, ◌∙◌, true, Option, none, some, [], ◌∷◌, ◌++◌, ltb, if◌then◌else◌, Bytes,
  codes, equal, length, Error, Result, ok, arith, tests,
}
use git_spdx.Stream.{Stream}
use git_spdx.Scan.{Event, skip, send}
use git_spdx.Options.{natural}
use git_spdx.CatFile.{Answer, read, answer_events}
use git_spdx.CatFile.Listing.{ListedBlob}
use git_spdx.CatFile.Blobs.{Object, IsObject, print_object, answer_of, output, read-print}
use git_spdx.CatFeed.{is_larger, ask}
use mathlib.Core.Path.{subst}

ok-injective : {A : Type 0} {x y : A} → ◌≡◌ {A = Result A} (ok x) (ok y) → x ≡ y
ok-injective p = cc

-- `content_of` is the content of the blobs in the store.
abbrev pub object_of : (Bytes → Bytes) → Bytes → Object
object_of content_of oid = record { oid = oid; kind = codes "blob"; content = content_of oid }

-- What is to be told of a blob.
abbrev pub event_of : (Bytes → ℕ) → (Bytes → Bytes) → Bytes → Event
event_of limit content_of oid =
    if ltb (limit oid) (length (content_of oid))
    then skip oid
    else send (record { oid = oid; content = content_of oid })

-- Git lists the blob with its size, and writes it where it is asked for.
pub record IsServedBy (serve content_of : Bytes → Bytes) (b : ListedBlob) : Type 0 where
  pub written : serve b.oid ≡ print_object (object_of content_of b.oid) []
  pub is_object : IsObject (object_of content_of b.oid)
  pub is_size : b.size ≡ natural (length (content_of b.oid))

module _ (serve : Bytes → Bytes) (limit : Bytes → ℕ) (content_of : Bytes → Bytes) where
  abbrev IsServed : ListedBlob → Type 0
  IsServed = IsServedBy serve content_of

  pub told_large :
      (b : ListedBlob)
      → IsServed b
      → is_larger b.size (limit b.oid) ≡ true
      → event_of limit content_of b.oid ≡ skip b.oid
  told_large b s l = ground (arith, sym (ap (λ n. is_larger n (limit b.oid)) s.is_size) ∙ l)

  told-answer :
      (oid : Bytes)
      → answer_events (limit oid) oid (answer_of (limit oid) (object_of content_of oid))
        ≡ event_of limit content_of oid ∷ []
  unfolding answer_events equal
  told-answer oid = grind tests

  -- An answer is what git has of the blob, and nothing is left in the pipe.
  pub ask-answer :
      (b : ListedBlob) (r : Stream) (asked : Option Error) {a : Answer} {r' : Stream}
      → IsServed b
      → r.bytes ≡ []
      → ask serve limit asked b r ≡ ok (a, r')
      → (answer_events (limit b.oid) b.oid a ≡ event_of limit content_of b.oid ∷ [])
        × (r'.bytes ≡ [])
  unfolding ask read
  ask-answer b r (some x) s e p = absurd (cc p)
  ask-answer b r none s e p =
      let o = object_of content_of b.oid in
      let answer =
        ap (λ bytes. read none (limit b.oid) (output bytes r.stop))
          (ap (λ left. left ++ serve b.oid) e ∙ s.written)
        ∙ read-print o (limit b.oid) [] r.stop s.is_object in
      let same = ok-injective (sym answer ∙ p) in
      (
        subst (λ q. answer_events (limit b.oid) b.oid q.0 ≡ event_of limit content_of b.oid ∷ [])
            same (told-answer b.oid),
        subst (λ q. (q.1).bytes ≡ []) same refl,
      )
