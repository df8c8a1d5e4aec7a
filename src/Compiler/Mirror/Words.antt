-- ===== src/Compiler/Mirror/Words.antt =====
-- src/compiler.c: compiling a word keeps the mirror, and the blob that is stored for a definition
-- is a sequence of items that can be decoded.
use march.Prelude.{
  ℕ, ◌≡◌, refl, true, false, Bool, Bool-cases, inl, inr, Option, none, some, List, [], ◌∷◌, ◌++◌,
  arith, leb, ltb, length, ◌>>=◌,
}
use march.Cells.{cell_buffer_create, cell_buffer_append, encode_xt}
use march.Blob.{BlobBuffer, blob_buffer_create, blob_word}
use march.Blob.Codec.{Item, IsEncodable, blob_of}
use march.Database.{Storage, Database, db_store_type_sig, db_store_blob}
use march.Dictionary.{DictEntry}
use march.Dictionary.Best.{All}
use march.Compiler.{
  Compiler, Specialization, WordDefinition, is_specialization, find_specialization,
  specialization_store, max_specializations,
}
use march.Compiler.Emit.{Result, fails, with_db, emit_cell}
use march.Compiler.Typing.{apply_signature}
use march.Compiler.Quotations.{type_array}
use march.Compiler.Compile.{Run, run_tokens, type_words, in_buffer, materialize_quotations}
use march.Compiler.Handlers.{push_all}
use march.Compiler.Word.{
  CompiledWord, restore_word, fresh_word, finish_word, word_compile_with_context, call_word,
  store_word, text_arrow,
}
use march.Compiler.Mirror.{
  Mirrors, none_left, as_call, as_ref, as_literal, CidSized, Grows, Keeps, Keeps-then, Grows-still,
}
use march.Compiler.Mirror.Emit.{Sized, db_store_blob-Sized, emit_ref-Keeps, IsReady-as}
use march.Compiler.Mirror.Quotations.{Grows-refl, KeepsRun, run_tokens-Keeps}
use march.Compiler.Mirror.Pending.{materialize_quotations-Keeps, Keeps-bind}
use march.Compiler.Mirror.Handlers.{push_all-Grows, apply_signature-Keeps}

-- A blob that mirrors some cells.
pub record IsBlob (bytes : List ℕ) : Type 0 where
  pub cells : List ℕ
  pub items : List Item
  pub in_blob : bytes ≡ blob_of items
  pub mirrored : Mirrors cells items

-- Such a blob has items that can be encoded, and so decoded.
pub Mirrors-IsEncodable :
    (cells : List ℕ) (items : List Item) → Mirrors cells items → All IsEncodable items
Mirrors-IsEncodable _ _ none_left = tt
Mirrors-IsEncodable _ _ (as_call addr id cells items ok m) = (ok, Mirrors-IsEncodable cells items m)
Mirrors-IsEncodable _ _ (as_ref cell kind cid cells items ok size m) =
    ((ok, size), Mirrors-IsEncodable cells items m)
Mirrors-IsEncodable _ _ (as_literal value cells items ok m) =
    (ok, Mirrors-IsEncodable cells items m)

-- A word that was compiled: its blob, and the compiler behind it.
abbrev pub WordKept : List DictEntry → Compiler → CompiledWord → Type 0
WordKept words base none = Unit
WordKept words base (some (none, comp)) = Unit
WordKept words base (some (some blob, comp)) = IsBlob blob.bytes × Grows words base comp

-- What the cache finds is a CID.
abbrev pub CidOf : Option (List ℕ) → Type 0
CidOf none = Unit
CidOf (some cid) = length cid ≡ 32

pub cached-CidOf :
    (name inputs : List ℕ) (specs : List Specialization)
    → All CidSized specs
    → CidOf (find_specialization name inputs specs)
unfolding find_specialization
cached-CidOf name inputs [] all = tt
cached-CidOf name inputs (spec ∷ specs) (size, all) =
    elim (Bool-cases (is_specialization name inputs spec)) [
      | inl same ↦ rw (same, CidOf) size
      | inr other ↦ rw other (cached-CidOf name inputs specs all)
    ]

All-snoc :
    (specs : List Specialization) (spec : Specialization)
    → All CidSized specs
    → CidSized spec
    → All CidSized (specs ++ spec ∷ [])
All-snoc [] spec all size = (size, tt)
All-snoc (other ∷ specs) spec (first, all) size = (first, All-snoc specs spec all size)

-- A step that is defined leaves a compiler that still mirrors.
abbrev GrowsAfter : List DictEntry → Compiler → Option (Bool × Compiler) → Type 0
GrowsAfter words base none = Unit
GrowsAfter words base (some (ok, comp)) = Grows words base comp

store-Grows :
    (words : List DictEntry) (base comp : Compiler) (name inputs cid : List ℕ)
    → length cid ≡ 32
    → Grows words base comp
    → GrowsAfter words base (specialization_store comp name inputs cid)
unfolding specialization_store
store-Grows words base comp name inputs cid size g =
    elim (Bool-cases (leb max_specializations (length comp.specializations))) [
      | inl full ↦ rw full g
      | inr room ↦ rw room (elim (Bool-cases (ltb 8 (length inputs))) [
        | inl many ↦ rw many tt
        | inr few ↦ rw few (
            Grows-still words base comp _ g refl refl (record {
              holds = g.ready.holds;
              sound = g.ready.sound;
              cached = All-snoc comp.specializations _ g.ready.cached size;
              literal = g.ready.literal;
            }))
      ])
    ]

module _ (os : Storage) (sized : (bytes : List ℕ) → length (os.sha256 bytes) ≡ 32)
    (words : List DictEntry) (run : Run) (keeps : KeepsRun words run) (fuel : ℕ) where
  finish_word-Kept :
      (base saved : Compiler) (r : Result)
      → Grows words base saved
      → Keeps words (fresh_word saved) r
      → WordKept words base (finish_word saved r)
  unfolding finish_word cell_buffer_create blob_buffer_create
  finish_word-Kept base saved none g k = tt
  finish_word-Kept base saved (some (false, comp)) g k = tt
  finish_word-Kept base saved (some (true, comp)) g k = (
    record { cells = k.cells; items = k.items; in_blob = k.in_blob; mirrored = k.mirrored },
    Grows-still words base saved (restore_word saved comp) g refl refl
        (IsReady-as words comp (restore_word saved comp) refl refl refl k.ready),
  )

  pub word_compile-Kept :
      (base comp : Compiler) (def : WordDefinition) (inputs : List ℕ)
      → Grows words base comp
      → WordKept words base (word_compile_with_context os run fuel def inputs comp)
  unfolding word_compile_with_context
  word_compile-Kept base comp def inputs g =
      let fresh = fresh_word comp in
      let start = Grows-refl words fresh (IsReady-as words comp fresh refl refl refl g.ready) in
      finish_word-Kept base comp _ g (
        Keeps-then words fresh (run_tokens run def.tokens (push_all inputs fresh))
          (materialize_quotations os run fuel)
          (run_tokens-Keeps words run fresh (push_all inputs fresh) def.tokens keeps
            (push_all-Grows words fresh inputs fresh start))
          (λ c k. materialize_quotations-Keeps words fresh os sized run fuel c keeps k))

  module _ (base : Compiler) where
    -- The types of a word, then a placeholder cell and the reference to its blob.
    pub call_word-Keeps :
        (comp : Compiler) (entry : DictEntry) (cid : List ℕ)
        → length cid ≡ 32
        → Grows words base comp
        → Keeps words base (call_word os run fuel entry cid comp)
    unfolding call_word emit_cell cell_buffer_append
    call_word-Keeps comp entry cid size g =
        Keeps-then words base (some (apply_signature comp entry.signature)) _
          (apply_signature-Keeps words base comp entry.signature g)
          (λ c k.
            emit_ref-Keeps words base c (emit_cell (encode_xt 0) c) (encode_xt 0) blob_word cid k
              refl refl (IsReady-as words c _ refl refl refl k.ready) (omega arith) size)

    with_db-Grows :
        (comp : Compiler) (db : Database)
        → Grows words base comp
        → Grows words base (with_db comp db)
    with_db-Grows comp db g =
        Grows-still words base comp (with_db comp db) g refl refl
          (IsReady-as words comp (with_db comp db) refl refl refl g.ready)

    pub store_word-Keeps :
        (entry : DictEntry) (name inputs : List ℕ) (blob : BlobBuffer) (comp : Compiler)
        → Grows words base comp
        → Keeps words base (store_word os run fuel entry name inputs blob comp)
    unfolding store_word
    store_word-Keeps entry name inputs blob comp g =
        Keeps-bind words base
          (in_buffer 256
            (type_words true inputs ++ text_arrow ++ type_words true (type_array comp)))
          _ λ text. signed (db_store_type_sig os comp.db [] text)
      where
        stored :
            (r : Option (List ℕ) × Database)
            → Sized r
            → Keeps words base (elim r.0 [
              | none ↦ fails (with_db comp r.1)
              | some cid ↦ specialization_store (with_db comp r.1) name inputs cid >>= λ cached.
                  call_word os run fuel entry cid cached.1
            ])
        stored (none, db) size = tt
        stored (some cid, db) size =
            cached (specialization_store (with_db comp db) name inputs cid) (
              store-Grows words base (with_db comp db) name inputs cid size
                (with_db-Grows comp db g))
          where
            cached :
                (r : Option (Bool × Compiler))
                → GrowsAfter words base r
                → Keeps words base (r >>= λ c. call_word os run fuel entry cid c.1)
            cached none k = tt
            cached (some (ok, c)) k = call_word-Keeps c entry cid size k

        signed :
            (sig : Option (List ℕ) × Database)
            → Keeps words base (elim sig.0 [
              | none ↦ fails (with_db comp sig.1)
              | some sig_cid ↦
                  let r = db_store_blob os sig.1 blob_word (some sig_cid) blob.bytes in
                  elim r.0 [
                    | none ↦ fails (with_db comp r.1)
                    | some cid ↦
                        specialization_store (with_db comp r.1) name inputs cid >>= λ cached.
                        call_word os run fuel entry cid cached.1
                  ]
            ])
        signed (none, db) = tt
        signed (some sig_cid, db) =
            stored _ (db_store_blob-Sized os sized db blob_word (some sig_cid) blob.bytes)
