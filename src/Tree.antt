-- ===== src/Tree.antt =====
-- Collecting legal blobs from raw trees: `canonicalLegalTreeMode`, `legalTreeCollector`,
-- `legalTreeWriter.Write` and `collectLegalTreeRaw` of gogit_history_stream.go.
--
-- go-git is a parameter: a hash is a value of the type `Hash` with its size, its text and the way it
-- is made of bytes; `mode_of` is `filemode.FromBytes`; `load` is `EncodedObject` with the reader that
-- it gives.
pub mod Streamed
use Prim.Native.Nat.{bit_and}
use git_spdx.Common.{
  ℕ, zero, suc, ◌+◌, ◌-◌, Bool, true, false, not, ◌&&◌, ◌||◌, Option, none, some, List, [], ◌∷◌,
  leb, ltb, ◌==◌, if◌then◌else◌, Bytes, equal, bytes_eq, cut, length, take, drop, Eq, Error, eof,
  unexpected_eof, buffer_full, empty_filename, invalid_oid, wrong_kind, unsupported_mode,
  out_of_fuel, wrapped, Result, ok, err, ◌>>=◌,
}
use git_spdx.Common.Dict.{Dict, insert}
use git_spdx.Stream.{Stream, is_eof}
use git_spdx.Names.{is_legal_directory, is_legal_file_name}

-- The constants of `filemode`, with any other number.
pub data FileMode : Type 0 where
  dir regular deprecated executable symlink submodule : FileMode
  other_mode : ℕ → FileMode

unfoldable pub canonical_mode : ℕ → FileMode
canonical_mode mode =
    let kind = bit_and mode 0o170000 in
    if kind == 0o040000
    then dir
    else if kind == 0o100000
    then (if not (bit_and mode 0o111 == 0) then executable else regular)
    else if kind == 0o120000
    then symlink
    else submodule

-- One entry of a tree, the end of the tree, or the error that ends the reading.
pub data Item (Hash : Type 0) : Type 0 where
  entry : FileMode → Bytes → Hash → Bytes → Item Hash
  finished : Item Hash
  failed : Error → Item Hash

-- What `EncodedObject` answers: the object's kind, whether it is a `MemoryObject`, its bytes, and the
-- errors of opening, reading and closing its reader.
pub record Object : Type 0 where
  pub is_tree : Bool
  pub in_memory : Bool
  pub content : Bytes
  pub open_error : Option Error
  pub stop : Error
  pub close_error : Option Error

pub record Library (Hash : Type 0) : Type 0 where
  pub size : Hash → ℕ
  pub hex : Hash → Bytes
  pub from_bytes : Bytes → Option Hash
  pub mode_of : Bytes → Result ℕ
  pub load : Hash → Result Object

-- The capacity of the pooled readers, `8<<10`.
abbrev pub buffer_size : ℕ
buffer_size = 8192

-- `ReadSlice(d)`: the bytes before `d` and those behind it, if the buffer can hold them; a stream
-- reports its end by a read of its own.
unfoldable pub read_slice : ℕ → Stream → Result (Bytes × Stream)
read_slice d r = elim (cut d r.bytes) [
  | none ↦ err (if ltb (length r.bytes) buffer_size then r.stop else buffer_full)
  | some (s, rest) ↦
      if ltb (length s) buffer_size
      then ok (s, record { bytes = rest; stop = r.stop })
      else err buffer_full
]

module _ {Hash : Type 0} (g : Library Hash) where
  -- The part of an entry behind its mode, in memory.
  unfoldable pub entry_in_memory : ℕ → ℕ → Bytes → Item Hash
  entry_in_memory size mode data' = elim (cut 0 data') [
    | none ↦ failed (wrapped unexpected_eof)
    | some (name, rest) ↦
        if length name == 0
        then failed empty_filename
        else if ltb (length rest) size
        then failed (wrapped unexpected_eof)
        else elim (g.from_bytes (take size rest)) [
          | none ↦ failed (invalid_oid (take size rest))
          | some oid ↦ entry (canonical_mode mode) name oid (drop size rest)
        ]
  ]

  -- One round of `legalTreeWriter.Write` up to its `switch`.
  unfoldable pub next_in_memory : ℕ → Bytes → Item Hash
  next_in_memory size [] = finished
  next_in_memory size (b ∷ bs) = elim (cut b' ' (b ∷ bs)) [
    | none ↦ failed (wrapped unexpected_eof)
    | some (mode_bytes, rest) ↦ elim (g.mode_of mode_bytes) [
      | err e ↦ failed (wrapped e)
      | ok mode ↦ entry_in_memory size mode rest
    ]
  ]

  -- The part of an entry behind its mode, from a buffered reader.
  unfoldable pub entry_in_stream : ℕ → ℕ → Stream → Item Hash
  entry_in_stream size mode r = elim (read_slice 0 r) [
    | err e ↦ failed (wrapped e)
    | ok (name, r') ↦
        if length name == 0
        then failed empty_filename
        else if ltb (length r'.bytes) size
        then failed (wrapped (if ltb buffer_size size then buffer_full else r'.stop))
        else elim (g.from_bytes (take size r'.bytes)) [
          | none ↦ failed (invalid_oid (take size r'.bytes))
          | some oid ↦ entry (canonical_mode mode) name oid (drop size r'.bytes)
        ]
  ]

  -- One round of the loop of `collectLegalTreeRaw` up to its `switch`. Only a reader that is at its
  -- end with nothing left ends the tree.
  unfoldable pub next_in_stream : ℕ → Stream → Item Hash
  next_in_stream size r = elim (read_slice b' ' r) [
    | err e ↦ if is_eof e && length r.bytes == 0 then finished else failed (wrapped e)
    | ok (mode_bytes, r') ↦ elim (g.mode_of mode_bytes) [
      | err e ↦ failed (wrapped e)
      | ok mode ↦ entry_in_stream size mode r'
    ]
  ]

-- `legalTreeCollector`: the keys `legalTreeKey{hash, inherited}` that are claimed, and the blobs.
pub record Collector (Hash : Type 0) : Type 0 where
  pub seen : List (Hash × Bool)
  pub legal : Dict Bytes Bool

-- `newLegalTreeCollector`
abbrev pub new_collector : {Hash : Type 0} → Collector Hash
new_collector = record { seen = []; legal = [] }

-- The collector behind a call, and its error: an error undoes nothing.
abbrev pub Outcome : Type 0 → Type 0
Outcome Hash = Collector Hash × Option Error

-- `if err := …; err != nil { return err }`
unfoldable pub and_then {ℓ} :
    {C : Type ℓ} → C × Option Error → (C → C × Option Error) → C × Option Error
and_then (c, some e) next = (c, some e)
and_then (c, none) next = next c

-- The deferred `Close`: its error counts if there is no other.
unfoldable pub close_reader : {Hash : Type 0} → Option Error → Outcome Hash → Outcome Hash
close_reader closing (c, some x) = (c, some x)
close_reader closing (c, none) = (c, closing)

abbrev same_flag : Bool → Bool → Bool
same_flag true b = b
same_flag false b = not b

module _ {Hash : Type 0} ⦃e : Eq Hash⦄ where
  unfoldable pub is_claimed : Hash → Bool → List (Hash × Bool) → Bool
  is_claimed h inherited [] = false
  is_claimed h inherited ((k, flag) ∷ keys) =
      e.beq k h && same_flag flag inherited || is_claimed h inherited keys

  -- `claim`: the collector, and whether the key is new.
  unfoldable pub claim : Hash → Bool → Collector Hash → Collector Hash × Bool
  claim h inherited c =
      if is_claimed h inherited c.seen
      then (c, false)
      else (record c { seen = (h, inherited) ∷ c.seen }, true)

module _ {Hash : Type 0} ⦃e : Eq Hash⦄ (g : Library Hash) where
  -- `add`
  unfoldable pub add : Hash → Collector Hash → Collector Hash
  add h c = record c { legal = insert (g.hex h) true c.legal }

  -- The `switch` on the mode of an entry; `collect` is the recursive call.
  unfoldable pub visit_entry :
      (Hash → Bool → Collector Hash → Outcome Hash)
      → Bool
      → FileMode
      → Bytes
      → Hash
      → Collector Hash
      → Outcome Hash
  visit_entry collect inherited dir name oid c =
      collect oid (inherited || is_legal_directory name) c
  visit_entry collect inherited symlink name oid c = (c, none)
  visit_entry collect inherited submodule name oid c = (c, none)
  visit_entry collect inherited (other_mode m) name oid c = (c, some unsupported_mode)
  visit_entry collect inherited _ name oid c =
      (if inherited || is_legal_file_name name then add oid c else c, none)

  -- `legalTreeWriter.Write`
  unfoldable pub write_tree :
      (Hash → Bool → Collector Hash → Outcome Hash)
      → ℕ
      → Bool
      → ℕ
      → Bytes
      → Collector Hash
      → Outcome Hash
  write_tree collect size inherited zero data' c = (c, some out_of_fuel)
  write_tree collect size inherited (suc fuel) data' c = elim (next_in_memory g size data') [
    | finished ↦ (c, none)
    | failed x ↦ (c, some x)
    | entry mode name oid rest ↦
        and_then (visit_entry collect inherited mode name oid c)
          (λ c'. write_tree collect size inherited fuel rest c')
  ]

  -- The loop of `collectLegalTreeRaw` over a buffered reader that ends with `stop`.
  unfoldable pub read_tree :
      (Hash → Bool → Collector Hash → Outcome Hash)
      → ℕ
      → Bool
      → Error
      → ℕ
      → Bytes
      → Collector Hash
      → Outcome Hash
  read_tree collect size inherited stop zero data' c = (c, some out_of_fuel)
  read_tree collect size inherited stop (suc fuel) data' c =
      elim (next_in_stream g size (record { bytes = data'; stop = stop })) [
        | finished ↦ (c, none)
        | failed x ↦ (c, some x)
        | entry mode name oid rest ↦
            and_then (visit_entry collect inherited mode name oid c)
              (λ c'. read_tree collect size inherited stop fuel rest c')
      ]

  -- Each entry takes a byte at least.
  unfoldable pub collect_object :
      (Hash → Bool → Collector Hash → Outcome Hash)
      → ℕ
      → Bool
      → Object
      → Collector Hash
      → Outcome Hash
  collect_object collect size inherited o c =
      if not o.is_tree
      then (c, some wrong_kind)
      else if o.in_memory
      then write_tree collect size inherited (suc (length o.content)) o.content c
      else elim o.open_error [
        | some x ↦ (c, some x)
        | none ↦
            close_reader o.close_error
              (read_tree collect size inherited o.stop (suc (length o.content)) o.content c)
      ]

  -- `collectLegalTreeRaw`; the fuel bounds the depth of the trees.
  unfoldable pub collect_legal_tree : ℕ → Hash → Bool → Collector Hash → Outcome Hash
  collect_legal_tree zero h inherited c = (c, some out_of_fuel)
  collect_legal_tree (suc fuel) h inherited c =
      let (c', new) = claim h inherited c in
      elim new [
        | false ↦ (c', none)
        | true ↦ elim (g.load h) [
          | err x ↦ (c', some x)
          | ok o ↦ collect_object (collect_legal_tree fuel) (g.size h) inherited o c'
        ]
      ]
