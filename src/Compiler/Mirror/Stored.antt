-- ===== src/Compiler/Mirror/Stored.antt =====
-- src/compiler.c: what the compiler writes mirrors its cells, from a token to the blob of a word.
use march.Prelude.{ℕ, ◌≡◌, refl, true, false, none, some, List, map, length}
use mathlib.Core.Path.{subst}
use march.Blob.{BlobBuffer}
use march.Blob.Codec.{Item, IsEncodable, tag_of, blob_of}
use march.Blob.Decoding.{decode_tags, decode_tags-blob_of}
use march.Tokens.{Token}
use march.Database.{Storage}
use march.Dictionary.{DictEntry}
use march.Dictionary.Best.{All}
use march.Compiler.{Compiler, WordDefinition}
use march.Compiler.Emit.{Result, ◌>>◌}
use march.Compiler.Compile.{Run, run_tokens, materialize_quotations}
use march.Compiler.Handlers.{push_all}
use march.Compiler.Word.{
  CompiledWord, fresh_word, finish_word, word_compile_with_context, compile_token,
}
use march.Compiler.Mirror.{IsReady, Grows, Keeps}
use march.Compiler.Mirror.Quotations.{Grows-refl}
use march.Compiler.Mirror.Words.{WordKept, Mirrors-IsEncodable, word_compile-Kept}
use march.Compiler.Mirror.Token.{token-KeepsRun}

module _ (os : Storage) (sized : (bytes : List ℕ) → length (os.sha256 bytes) ≡ 32)
    (words : List DictEntry) where
  -- With hashes of 32 bytes, a dictionary of sound words, CIDs in the cache and quotations that
  -- wait as tokens, a token that is compiled leaves such a compiler again; and what it adds to the
  -- cells is, one for one, what it adds to the blob: a call for a primitive, a reference for a
  -- word, a literal or a quotation, and the same number for an offset.
  pub compile_token-Grows :
      (fuel : ℕ) (tok : Token) (comp comp' : Compiler)
      → IsReady words comp
      → compile_token os fuel tok comp ≡ some (true, comp')
      → Grows words comp comp'
  compile_token-Grows fuel tok comp comp' ready e =
      subst (Keeps words comp) e
        (token-KeepsRun os sized words fuel comp comp tok (Grows-refl words comp ready))

  -- The caller's cells, blob and types, in every result.
  abbrev Restored : Compiler → CompiledWord → Type 0
  Restored saved none = Unit
  Restored saved (some (blob, comp)) =
      (comp.cells ≡ saved.cells) × (comp.blob ≡ saved.blob) × (comp.type_stack ≡ saved.type_stack)

  word_compile-Restored :
      (run : Run) (pending : ℕ) (comp : Compiler) (def : WordDefinition) (inputs : List ℕ)
      → Restored comp (word_compile_with_context os run pending def inputs comp)
  unfolding word_compile_with_context finish_word
  word_compile-Restored run pending comp def inputs = go (
      run_tokens run def.tokens (push_all inputs (fresh_word comp))
      >> materialize_quotations os run pending)
    where
      go : (r : Result) → Restored comp (finish_word comp r)
      go none = tt
      go (some (false, c)) = (refl, refl, refl)
      go (some (true, c)) = (refl, refl, refl)

  -- With hashes of 32 bytes, a dictionary of sound words, CIDs in the cache and quotations that
  -- wait as tokens, the blob that is compiled for a definition is the bytes of encodable items,
  -- which as many calls of decode_tag_ex read back one after the other, to the blob's end; the
  -- caller's cells, blob and types are as before.
  pub word_compile-Decodable :
      (fuel pending : ℕ) (def : WordDefinition) (inputs : List ℕ) (comp comp' : Compiler)
      (blob : BlobBuffer)
      → IsReady words comp
      → word_compile_with_context os (compile_token os fuel) pending def inputs comp
        ≡ some (some blob, comp')
      → (items : List Item) × (blob.bytes ≡ blob_of items)
        × All IsEncodable items
        × (decode_tags (length items) blob.bytes ≡ some (map tag_of items))
        × (comp'.cells ≡ comp.cells)
        × (comp'.blob ≡ comp.blob)
        × (comp'.type_stack ≡ comp.type_stack)
  word_compile-Decodable fuel pending def inputs comp comp' blob ready e =
      let (is_blob, g) = subst (WordKept words comp) e (
        word_compile-Kept os sized words (compile_token os fuel)
          (token-KeepsRun os sized words fuel) pending comp comp def inputs
          (Grows-refl words comp ready)) in
      let (cells, kept, types) =
        subst (Restored comp) e
          (word_compile-Restored (compile_token os fuel) pending comp def inputs) in
      let encodable = Mirrors-IsEncodable _ _ is_blob.mirrored in
      (
        is_blob.items,
        is_blob.in_blob,
        encodable,
        rw is_blob.in_blob (decode_tags-blob_of is_blob.items encodable),
        cells,
        kept,
        types,
      )
