-- ===== src/Compiler/Mirror.antt =====
-- src/compiler.c: the compiler writes every word twice, as cells and as the bytes of a blob. Each
-- cell has its item in the blob: a call its primitive, or the reference to a word or to data, and
-- an offset the same number. This is what makes the blob decodable, and its offsets, which count
-- cells, right.
pub mod Bytes
pub mod Emit
pub mod Literals
pub mod Arrays
pub mod Offsets
pub mod Branches
pub mod Loops
pub mod Until
pub mod Room
pub mod Quotations
pub mod Pending
pub mod Handlers
pub mod Words
pub mod Token
pub mod Stored
pub mod Registered
mod Examples
use mathlib.Core.List.{append_assoc}
use march.Prelude.{
  ℕ, zero, suc, ◌+◌, ◌%◌, ◌^◌, ◌<◌, ◌≡◌, refl, sym, ◌∙◌, ap, Bool, true, false, ◌||◌, Option, none,
  some, List, [], ◌∷◌, ◌++◌, arith, bytes_eq, length, append-empty,
}
use march.Cells.{encode_xt, encode_lit, encode_exit}
use march.Blob.Codec.{Item, primitive, cid_ref, literal, item_bytes, blob_of}
use march.Dictionary.{DictEntry}
use march.Dictionary.Chains.{Holds}
use march.Dictionary.Best.{All}
use march.Database.{Storage}
use march.Compiler.{Compiler, Quotation, Specialization}
use march.Compiler.Emit.{Result, ◌>>◌}
use march.Compiler.Words.{name_drop, name_dup, name_swap, name_over, name_rot}
use march.Compiler.Arrays.{
  name_alloc, name_store, name_cstore, name_add, name_tor, name_fromr, name_rfetch,
}
use march.Compiler.Branches.{name_rdrop, name_zbranch, name_branch, name_sub, name_zerop}
use march.Compiler.Define.Ends.{AllLiteral}

abbrev pub IsPrimId : ℕ → Type 0
IsPrimId id = (0 < id) × (id < 2 ^ 15)

-- Cells and items, one for one.
pub data Mirrors : List ℕ → List Item → Type 0 where
  none_left : Mirrors [] []
  as_call :
      (addr id : ℕ) (cells : List ℕ) (items : List Item)
      → IsPrimId id
      → Mirrors cells items
      → Mirrors (encode_xt addr ∷ cells) (primitive id ∷ items)
  as_ref :
      (cell kind : ℕ) (cid cells : List ℕ) (items : List Item)
      → kind < 2 ^ 15
      → length cid ≡ 32
      → Mirrors cells items
      → Mirrors (cell ∷ cells) (cid_ref kind cid ∷ items)
  as_literal :
      (value : ℕ) (cells : List ℕ) (items : List Item)
      → value < 2 ^ 64
      → Mirrors cells items
      → Mirrors (encode_lit value ∷ cells) (literal value ∷ items)

pub Mirrors-append :
    (cells₁ cells₂ : List ℕ) (items₁ items₂ : List Item)
    → Mirrors cells₁ items₁
    → Mirrors cells₂ items₂
    → Mirrors (cells₁ ++ cells₂) (items₁ ++ items₂)
Mirrors-append _ cells₂ _ items₂ none_left n = n
Mirrors-append _ cells₂ _ items₂ (as_call addr id cells items ok m) n =
    as_call addr id _ _ ok (Mirrors-append cells cells₂ items items₂ m n)
Mirrors-append _ cells₂ _ items₂ (as_ref cell kind cid cells items ok size m) n =
    as_ref cell kind cid _ _ ok size (Mirrors-append cells cells₂ items items₂ m n)
Mirrors-append _ cells₂ _ items₂ (as_literal value cells items ok m) n =
    as_literal value _ _ ok (Mirrors-append cells cells₂ items items₂ m n)

pub blob_of-append :
    (items₁ items₂ : List Item) → blob_of (items₁ ++ items₂) ≡ blob_of items₁ ++ blob_of items₂
blob_of-append [] items₂ = refl
blob_of-append (item ∷ items₁) items₂ =
    rw (blob_of-append items₁ items₂)
      (sym (append_assoc (item_bytes item) (blob_of items₁) (blob_of items₂)))

-- The words whose primitives the compiler looks up by name.
abbrev pub emitted_names : List (List ℕ)
emitted_names =
    name_drop ∷ name_dup ∷ name_swap ∷ name_over ∷ name_rot ∷ name_alloc ∷ name_store ∷ name_cstore
    ∷ name_add ∷ name_tor ∷ name_fromr ∷ name_rfetch ∷ name_rdrop ∷ name_zbranch ∷ name_branch
    ∷ name_sub ∷ name_zerop ∷ []

abbrev pub one_of : List (List ℕ) → List ℕ → Bool
one_of [] name = false
one_of (other ∷ names) name = bytes_eq other name || one_of names name

-- A word that is a primitive, or has the name of one that is looked up, has a primitive's number; a
-- CID has its 32 bytes.
pub record IsSound (entry : DictEntry) : Type 0 where
  pub numbered :
      (entry.is_primitive || one_of emitted_names entry.name) ≡ true → IsPrimId entry.prim_id
  pub sized : (cid : List ℕ) → entry.cid ≡ some cid → length cid ≡ 32

abbrev pub CidSized : Specialization → Type 0
CidSized spec = length spec.cid ≡ 32

-- A compiler whose dictionary holds sound words, whose cache has CIDs, and whose quotations are not
-- compiled yet.
pub record IsReady (words : List DictEntry) (comp : Compiler) : Type 0 where
  pub holds : Holds words comp.dict
  pub sound : All IsSound words
  pub cached : All CidSized comp.specializations
  pub literal : AllLiteral comp.quot_stack

-- What `comp` has more than `base` in its cells and in its blob mirrors each other.
pub record Grows (words : List DictEntry) (base comp : Compiler) : Type 0 where
  pub cells : List ℕ
  pub items : List Item
  pub in_cells : comp.cells.cells ≡ base.cells.cells ++ cells
  pub in_blob : comp.blob.bytes ≡ base.blob.bytes ++ blob_of items
  pub mirrored : Mirrors cells items
  pub ready : IsReady words comp

-- The same of a result that is a success.
abbrev pub Keeps : List DictEntry → Compiler → Result → Type 0
Keeps words base none = Unit
Keeps words base (some (false, comp)) = Unit
Keeps words base (some (true, comp)) = Grows words base comp

-- A quotation that is compiled: its cells but EXIT mirror its blob.
pub record IsCompiled (quot : Quotation) : Type 0 where
  pub cells : List ℕ
  pub items : List Item
  pub in_cells : quot.cells.cells ≡ cells ++ encode_exit ∷ []
  pub in_blob : quot.blob.bytes ≡ blob_of items
  pub mirrored : Mirrors cells items

module _ (words : List DictEntry) (base : Compiler) where
  pub Keeps-then :
      (r : Result) (next : Compiler → Result)
      → Keeps words base r
      → ((c : Compiler) → Grows words base c → Keeps words base (next c))
      → Keeps words base (r >> next)
  Keeps-then none next k f = tt
  Keeps-then (some (false, comp)) next k f = tt
  Keeps-then (some (true, comp)) next k f = f comp k

  -- New cells and their items behind those that are there.
  pub Grows-append :
      (comp c : Compiler) (cells : List ℕ) (items : List Item)
      → Grows words base comp
      → c.cells.cells ≡ comp.cells.cells ++ cells
      → c.blob.bytes ≡ comp.blob.bytes ++ blob_of items
      → Mirrors cells items
      → IsReady words c
      → Grows words base c
  Grows-append comp c cells items g in_cells in_blob m ready = record {
    cells = g.cells ++ cells;
    items = g.items ++ items;
    in_cells =
        in_cells
        ∙ ap (λ (t : List ℕ). t ++ cells) g.in_cells
        ∙ append_assoc base.cells.cells g.cells cells;
    in_blob =
        in_blob
        ∙ ap (λ (t : List ℕ). t ++ blob_of items) g.in_blob
        ∙ append_assoc base.blob.bytes (blob_of g.items) (blob_of items)
        ∙ ap (λ (t : List ℕ). base.blob.bytes ++ t) (sym (blob_of-append g.items items));
    mirrored = Mirrors-append g.cells cells g.items items g.mirrored m;
    ready = ready;
  }

  -- A step that leaves the cells and the blob alone.
  pub Grows-still :
      (comp c : Compiler)
      → Grows words base comp
      → c.cells.cells ≡ comp.cells.cells
      → c.blob.bytes ≡ comp.blob.bytes
      → IsReady words c
      → Grows words base c
  Grows-still comp c g in_cells in_blob ready =
      Grows-append comp c [] [] g (in_cells ∙ sym (append-empty comp.cells.cells))
        (in_blob ∙ sym (append-empty comp.blob.bytes)) none_left ready
