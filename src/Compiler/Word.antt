-- ===== src/Compiler/Word.antt =====
-- src/compiler.c: `compile_word`, the compilation of a definition for the types it is called with,
-- and the step on one token.
use march.Prelude.{
  ℕ, zero, suc, ◌-◌, true, false, ◌&&◌, not, Option, none, some, List, [], ◌∷◌, ◌++◌, ltb, ◌==◌,
  if◌then◌else◌, ◌>>=◌, length, get_elem?, drop, replicate,
}
use march.Types.{max_slots}
use march.Cells.{cell_buffer_create, encode_xt}
use march.Blob.{BlobBuffer, blob_buffer_create, blob_word}
use march.Tokens.{
  Token, TokenType, tok_number, tok_word, tok_string, tok_lparen, tok_rparen, tok_lbracket,
  tok_rbracket,
}
use march.Database.{Storage, db_store_type_sig, db_store_blob}
use march.Dictionary.{DictEntry, dict_lookup, dict_lookup_typed}
use march.Refgraph.{ref_graph_create}
use march.Compiler.{
  Compiler, WordDefinition, emit_call, specialization_lookup, specialization_store,
}
use march.Compiler.Emit.{
  Result, ◌>>◌, done, fails, with_db, emit_cell, emit_ref, compile_number, compile_string,
}
use march.Compiler.Typing.{apply_signature}
use march.Compiler.Quotations.{type_array, compile_lparen, compile_rparen, compile_lbracket}
use march.Compiler.Arrays.{compile_rbracket}
use march.Compiler.Compile.{Run, run_tokens, type_words, in_buffer, materialize_quotations}
use march.Compiler.Handlers.{push_all, call_handler}

-- What `word_compile_with_context` returns: the blob, or the null pointer.
abbrev pub CompiledWord : Type 0
CompiledWord = Option (Option BlobBuffer × Compiler)

abbrev pub restore_word : Compiler → Compiler → Compiler
restore_word saved comp = record comp {
  cells = saved.cells;
  blob = saved.blob;
  ref_graph = saved.ref_graph;
  type_stack = saved.type_stack;
  slot_count = saved.slot_count;
  slot_used = saved.slot_used;
}

abbrev pub fresh_word : Compiler → Compiler
fresh_word comp = record comp {
  cells = cell_buffer_create;
  blob = blob_buffer_create;
  ref_graph = some ref_graph_create;
  type_stack = [];
  slot_count = 0;
  slot_used = replicate max_slots false;
}

unfoldable pub finish_word : Compiler → Result → CompiledWord
finish_word saved none = none
finish_word saved (some (false, comp)) = some (none, restore_word saved comp)
finish_word saved (some (true, comp)) = some (some comp.blob, restore_word saved comp)

-- "-> "
abbrev pub text_arrow : List ℕ
text_arrow = 45 ∷ 62 ∷ 32 ∷ []

module _ (os : Storage) (run : Run) (fuel : ℕ) where
  unfoldable pub word_compile_with_context : WordDefinition → List ℕ → Compiler → CompiledWord
  unfolding finish_word
  word_compile_with_context def input_types comp = finish_word comp (
      run_tokens run def.tokens (push_all input_types (fresh_word comp))
      >> materialize_quotations os run fuel)

  -- The types of the word, and the call of the blob under a CID.
  unfoldable pub call_word : DictEntry → List ℕ → Compiler → Result
  call_word entry cid comp = some (apply_signature comp entry.signature) >> λ c.
      emit_ref blob_word cid (emit_cell (encode_xt 0) c)

  -- The blob that was compiled is stored under a signature, and kept in the cache.
  unfoldable pub store_word : DictEntry → List ℕ → List ℕ → BlobBuffer → Compiler → Result
  unfolding call_word
  store_word entry name inputs blob comp =
      in_buffer 256 (type_words true inputs ++ text_arrow ++ type_words true (type_array comp))
      >>= λ text.
          let sig = db_store_type_sig os comp.db [] text in
          elim sig.0 [
            | none ↦ fails (with_db comp sig.1)
            | some sig_cid ↦
                let stored = db_store_blob os sig.1 blob_word (some sig_cid) blob.bytes in
                elim stored.0 [
                  | none ↦ fails (with_db comp stored.1)
                  | some cid ↦
                      specialization_store (with_db comp stored.1) name inputs cid >>= λ cached.
                      call_word entry cid cached.1
                ]
          ]

  abbrev pub on_word : (BlobBuffer → Compiler → Result) → CompiledWord → Result
  on_word next none = none
  on_word next (some (none, comp)) = fails comp
  on_word next (some (some blob, comp)) = next blob comp

  -- A word with a definition, at the types of its inputs on the stack.
  unfoldable pub compile_stored : DictEntry → List ℕ → ℕ → Compiler → Result
  unfolding call_word store_word
  compile_stored entry name index comp =
      let count = length entry.signature.inputs in
      if ltb (length comp.type_stack) count
      then fails comp
      else (let inputs = drop (length comp.type_stack - count) (type_array comp) in
          elim (specialization_lookup comp name inputs) [
            | some cid ↦ call_word entry cid comp
            | none ↦ get_elem? comp.word_defs index >>= λ def.
                on_word (store_word entry name inputs) (word_compile_with_context def inputs comp)
          ])

  -- A primitive, or a word with a CID.
  unfoldable pub compile_plain : DictEntry → Compiler → Result
  compile_plain entry comp = some (apply_signature comp entry.signature) >> λ c.
      if entry.is_primitive then done (emit_call c entry) else elim entry.cid [
        | none ↦ fails (emit_cell (encode_xt 0) c)
        | some cid ↦ emit_ref blob_word cid (emit_cell (encode_xt 0) c)
      ]

  unfoldable pub compile_entry : List ℕ → DictEntry → Compiler → Result
  unfolding compile_stored compile_plain
  compile_entry name entry comp =
      if entry.is_immediate
      then elim entry.handler [
        | none ↦ fails comp
        | some handler ↦ call_handler os run handler comp
      ]
      else elim entry.word_def [
        | some index ↦ compile_stored entry name index comp
        | none ↦ compile_plain entry comp
      ]

  -- The word that the types select.
  unfoldable pub compile_typed : List ℕ → Compiler → Result
  unfolding compile_entry
  compile_typed name comp = elim (dict_lookup_typed comp.dict name (type_array comp)) [
    | none ↦ fails comp
    | some entry ↦ compile_entry name entry comp
  ]

  unfoldable pub compile_word : List ℕ → Compiler → Result
  unfolding compile_typed
  compile_word name comp = elim (dict_lookup comp.dict name) [
    | none ↦ fails comp
    | some entry ↦
        (if not entry.is_immediate
            && not (length comp.quot_stack == 0)
            && comp.buffer_stack_depth == 0
          then materialize_quotations os run fuel comp
          else done comp)
        >> compile_typed name
  ]

  unfoldable pub token_kind : TokenType → Token → Compiler → Result
  token_kind tok_number tok comp = compile_number os tok.number comp
  token_kind tok_string tok comp = compile_string os tok.text comp
  token_kind tok_word tok comp = compile_word tok.text comp
  token_kind tok_lparen tok comp = compile_lparen comp
  token_kind tok_rparen tok comp = compile_rparen comp
  token_kind tok_lbracket tok comp = compile_lbracket comp
  token_kind tok_rbracket tok comp = compile_rbracket os comp
  token_kind _ tok comp = fails comp

  unfoldable pub token_step : Token → Compiler → Result
  unfolding token_kind
  token_step tok comp = token_kind tok.type tok comp

unfoldable pub compile_token : Storage → ℕ → Run
unfolding token_step
compile_token os zero tok comp = none
compile_token os (suc fuel) tok comp =
    token_step os (λ t c. compile_token os fuel t c) fuel tok comp
