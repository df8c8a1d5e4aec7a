-- ===== src/Compiler/Mirror/Emit.antt =====
-- src/compiler.c: the steps that emit a call, a reference or a literal write an item for each cell.
use march.Prelude.{
  ℕ, ◌^◌, ◌<◌, ◌≡◌, refl, sym, ◌∙◌, ap, true, Bool-cases, inl, inr, Option, none, some, List, [],
  ◌∷◌, ◌++◌, arith, ◌>>=◌, bytes_eq, leb, bytes_eq→eq, length, append-empty,
}
use march.Cells.{cell_buffer_append, encode_xt, encode_lit}
use march.Blob.{BlobBuffer, encode_cid_ref, blob_data}
use march.Blob.Codec.{Item, primitive, cid_ref, item_bytes, blob_of}
use march.Dictionary.{DictEntry, find_name, dict_lookup}
use march.Dictionary.Chains.{dict_lookup-eq}
use march.Dictionary.Best.{All}
use march.Database.{Storage, Database, db_store_literal, db_store_blob}
use march.Compiler.{Compiler, push_type, emit_call}
use march.Compiler.Emit.{
  Result, done, fails, with_blob, with_db, with_prim, emit_cell, emit_ref, emit_stored,
  emit_untested, emit_literal, emit_literal_untested, text_i64,
}
use march.Compiler.Mirror.{
  IsPrimId, none_left, as_call, as_ref, emitted_names, one_of, IsSound, IsReady, Grows, Keeps,
  Grows-append, Grows-still,
}
use march.Compiler.Mirror.Bytes.{Holding, primitive-bytes, cid_ref-Holding}

-- The code for one item, behind the bytes of a blob.
abbrev one : Item → List ℕ → List ℕ
one item bytes = bytes ++ blob_of (item ∷ [])

one-eq : (item : Item) (bytes : List ℕ) → bytes ++ item_bytes item ≡ one item bytes
one-eq item bytes = ap (λ (t : List ℕ). bytes ++ t) (sym (append-empty (item_bytes item)))

-- Whether a compiler is ready does not depend on its buffers or its types.
pub IsReady-as :
    (words : List DictEntry) (comp c : Compiler)
    → c.dict ≡ comp.dict
    → c.specializations ≡ comp.specializations
    → c.quot_stack ≡ comp.quot_stack
    → IsReady words comp
    → IsReady words c
IsReady-as words comp c dict specs quots ready = record {
  holds = rw dict ready.holds;
  sound = ready.sound;
  cached = rw specs ready.cached;
  literal = rw quots ready.literal;
}

-- What a lookup finds is a sound word of the name.
abbrev Found : List ℕ → Option DictEntry → Type 0
Found name none = Unit
Found name (some entry) = IsSound entry × (bytes_eq entry.name name ≡ true)

find_name-Found :
    (name : List ℕ) (words : List DictEntry) → All IsSound words → Found name (find_name name words)
unfolding find_name
find_name-Found name [] all = tt
find_name-Found name (entry ∷ words) (sound, all) = elim (Bool-cases (bytes_eq entry.name name)) [
  | inl same ↦ rw (same, Found) (sound, same)
  | inr other ↦ rw other (find_name-Found name words all)
]

-- A word that is found under one of the names has a primitive's number.
numbered_as :
    (name : List ℕ) (entry : DictEntry)
    → IsSound entry
    → bytes_eq entry.name name ≡ true
    → one_of emitted_names name ≡ true
    → IsPrimId entry.prim_id
numbered_as name entry sound same known =
    sound.numbered (rw (bytes_eq→eq entry.name name same, known) (ground arith))

-- A word, if there is one, has a primitive's number.
abbrev pub PrimOf : Option DictEntry → Type 0
PrimOf none = Unit
PrimOf (some prim) = IsPrimId prim.prim_id

Found-PrimOf :
    (name : List ℕ) (o : Option DictEntry)
    → one_of emitted_names name ≡ true
    → Found name o
    → PrimOf o
Found-PrimOf name none known found = tt
Found-PrimOf name (some prim) known (sound, same) = numbered_as name prim sound same known

pub dict_lookup-PrimOf :
    (words : List DictEntry) (name : List ℕ) (comp : Compiler)
    → one_of emitted_names name ≡ true
    → IsReady words comp
    → PrimOf (dict_lookup comp.dict name)
dict_lookup-PrimOf words name comp known ready =
    rw (dict_lookup-eq words comp.dict name ready.holds, PrimOf)
      (Found-PrimOf name (find_name name words) known (find_name-Found name words ready.sound))

module _ (words : List DictEntry) (base : Compiler) where
  pub with_prim-Keeps :
      (name : List ℕ) (next : DictEntry → Compiler → Result) (comp : Compiler)
      → one_of emitted_names name ≡ true
      → IsReady words comp
      → ((prim : DictEntry) → IsPrimId prim.prim_id → Keeps words base (next prim comp))
      → Keeps words base (with_prim name next comp)
  unfolding with_prim
  with_prim-Keeps name next comp known ready k =
      go (dict_lookup comp.dict name) (dict_lookup-PrimOf words name comp known ready)
    where
      go :
          (o : Option DictEntry)
          → PrimOf o
          → Keeps words base (elim o [ none ↦ fails comp | some prim ↦ next prim comp ])
      go none found = tt
      go (some prim) found = k prim found

  pub emit_call-Grows :
      (comp : Compiler) (prim : DictEntry)
      → Grows words base comp
      → IsPrimId prim.prim_id
      → Grows words base (emit_call comp prim)
  unfolding emit_call cell_buffer_append
  emit_call-Grows comp prim g ok =
      Grows-append words base comp _ (encode_xt prim.addr ∷ []) (primitive prim.prim_id ∷ []) g refl
        (primitive-bytes comp.blob prim.prim_id ok.1
          ∙ one-eq (primitive prim.prim_id) comp.blob.bytes)
        (as_call prim.addr prim.prim_id [] [] ok none_left)
        (IsReady-as words comp _ refl refl refl g.ready)

  -- A reference behind the cell that was just written for it.
  pub emit_ref-Keeps :
      (comp c : Compiler) (cell kind : ℕ) (cid : List ℕ)
      → Grows words base comp
      → c.cells.cells ≡ comp.cells.cells ++ cell ∷ []
      → c.blob.bytes ≡ comp.blob.bytes
      → IsReady words c
      → kind < 2 ^ 15
      → length cid ≡ 32
      → Keeps words base (emit_ref kind cid c)
  unfolding emit_ref
  emit_ref-Keeps comp c cell kind cid g in_cells in_blob ready few size =
      go (encode_cid_ref c.blob kind cid) (cid_ref-Holding c.blob kind cid few)
    where
      go :
          (o : Option BlobBuffer)
          → Holding (c.blob.bytes ++ item_bytes (cid_ref kind cid)) o
          → Keeps words base (o >>= λ blob. done (with_blob c blob))
      go none h = tt
      go (some b) h =
          Grows-append words base comp (with_blob c b) (cell ∷ []) (cid_ref kind cid ∷ []) g
            in_cells
            (h
              ∙ one-eq (cid_ref kind cid) c.blob.bytes
              ∙ ap (λ (t : List ℕ). t ++ blob_of (cid_ref kind cid ∷ [])) in_blob)
            (as_ref cell kind cid [] [] few size none_left)
            (IsReady-as words c (with_blob c b) refl refl refl ready)

  pub push_type-Grows :
      (comp : Compiler) (type : ℕ) → Grows words base comp → Grows words base (push_type comp type)
  unfolding push_type
  push_type-Grows comp type g = elim (Bool-cases (leb 256 (length comp.type_stack))) [
    | inl full ↦ rw full g
    | inr room ↦
        rw room (
          Grows-still words base comp _ g refl refl
            (IsReady-as words comp _ refl refl refl g.ready))
  ]

-- What is stored has a CID of 32 bytes.
abbrev pub Sized : Option (List ℕ) × Database → Type 0
Sized (none, db) = Unit
Sized (some cid, db) = length cid ≡ 32

module _ (os : Storage) (sized : (bytes : List ℕ) → length (os.sha256 bytes) ≡ 32) where
  pub db_store_blob-Sized :
      (db : Database) (kind : ℕ) (sig_cid : Option (List ℕ)) (content : List ℕ)
      → Sized (db_store_blob os db kind sig_cid content)
  unfolding db_store_blob
  db_store_blob-Sized db kind sig_cid content = elim (Bool-cases (os.accepts db)) [
    | inl taken ↦ rw taken (sized content)
    | inr refused ↦ rw refused tt
  ]

  pub db_store_literal-Sized :
      (db : Database) (value : ℕ) (sig : List ℕ) → Sized (db_store_literal os db value sig)
  unfolding db_store_literal
  db_store_literal-Sized db value sig = db_store_blob-Sized _ _ _ _

  module _ (words : List DictEntry) (base : Compiler) where
    -- A reference to what was stored, behind its cell.
    pub emit_stored-Keeps :
        (comp c : Compiler) (cell kind : ℕ) (r : Option (List ℕ) × Database)
        → Grows words base comp
        → c.cells.cells ≡ comp.cells.cells ++ cell ∷ []
        → c.blob.bytes ≡ comp.blob.bytes
        → IsReady words c
        → kind < 2 ^ 15
        → Sized r
        → Keeps words base (emit_stored kind r c) × Keeps words base (emit_untested kind r c)
    unfolding emit_stored emit_untested
    emit_stored-Keeps comp c cell kind (none, db) g in_cells in_blob ready few size = (tt, tt)
    emit_stored-Keeps comp c cell kind (some cid, db) g in_cells in_blob ready few size =
        let kept =
          emit_ref-Keeps words base comp (with_db c db) cell kind cid g in_cells in_blob
            (IsReady-as words c (with_db c db) refl refl refl ready) few size in
        (kept, kept)

    pub emit_literal-Keeps :
        (comp : Compiler) (value : ℕ)
        → Grows words base comp
        → Keeps words base (emit_literal os value comp)
          × Keeps words base (emit_literal_untested os value comp)
    unfolding emit_literal emit_literal_untested emit_cell cell_buffer_append
    emit_literal-Keeps comp value g =
        emit_stored-Keeps comp (emit_cell (encode_lit value) comp) (encode_lit value) blob_data
          (db_store_literal os comp.db value text_i64) g refl refl
          (IsReady-as words comp _ refl refl refl g.ready) (omega arith)
          (db_store_literal-Sized comp.db value text_i64)
