-- ===== src/Compiler/Mirror/Token.antt =====
-- src/compiler.c: every token that is compiled writes an item of the blob for each of its cells.
use march.Prelude.{
  ℕ, zero, suc, ◌-◌, ◌≡◌, refl, ap, Bool, Bool-cases, ◌||◌, ◌&&◌, not, inl, inr, Option, none, some,
  List, arith, ltb, ◌==◌, if◌then◌else◌, ◌>>=◌, get_elem?, drop, length,
}
use march.Cells.{cell_buffer_append, encode_xt}
use march.Blob.{blob_word}
use march.Tokens.{
  Token, TokenType, tok_number, tok_string, tok_word, tok_lparen, tok_rparen, tok_lbracket,
  tok_rbracket,
}
use march.Database.{Storage}
use march.Dictionary.{DictEntry, dict_lookup, dict_lookup_typed}
use march.Dictionary.Find.{OfFound, dict_lookup_typed-OfFound}
use march.Compiler.{Compiler, WordDefinition, emit_call, specialization_lookup}
use march.Compiler.Emit.{◌>>◌, done, fails, emit_cell, emit_ref}
use march.Compiler.Typing.{apply_signature}
use march.Compiler.Quotations.{type_array}
use march.Compiler.Compile.{Run, materialize_quotations}
use march.Compiler.Handlers.{call_handler}
use march.Compiler.Word.{
  CompiledWord, word_compile_with_context, call_word, store_word, on_word, compile_stored,
  compile_plain, compile_entry, compile_typed, compile_word, token_kind, token_step, compile_token,
}
use march.Compiler.Mirror.{emitted_names, one_of, IsSound, Grows, Keeps, Keeps-then}
use march.Compiler.Mirror.Emit.{emit_call-Grows, emit_ref-Keeps, IsReady-as}
use march.Compiler.Mirror.Literals.{compile_number-Keeps, compile_string-Keeps}
use march.Compiler.Mirror.Arrays.{compile_rbracket-Keeps}
use march.Compiler.Mirror.Quotations.{KeepsRun}
use march.Compiler.Mirror.Pending.{materialize_quotations-Keeps, brackets-Keep}
use march.Compiler.Mirror.Handlers.{apply_signature-Keeps, branch-Keeps, call_handler-Keeps}
use march.Compiler.Mirror.Words.{
  WordKept, CidOf, cached-CidOf, word_compile-Kept, call_word-Keeps, store_word-Keeps,
}

module _ (os : Storage) (sized : (bytes : List ℕ) → length (os.sha256 bytes) ≡ 32)
    (words : List DictEntry) where
  module _ (run : Run) (keeps : KeepsRun words run) (fuel : ℕ) (base : Compiler) where
    stored-Keeps :
        (entry : DictEntry) (name : List ℕ) (index : ℕ) (comp : Compiler)
        → Grows words base comp
        → Keeps words base (compile_stored os run fuel entry name index comp)
    unfolding compile_stored specialization_lookup
    stored-Keeps entry name index comp g =
        branch-Keeps words base (ltb (length comp.type_stack) (length entry.signature.inputs)) _ _
          tt
          (looked (specialization_lookup comp name inputs)
            (cached-CidOf name inputs comp.specializations g.ready.cached))
      where
        inputs : List ℕ
        inputs = drop (length comp.type_stack - length entry.signature.inputs) (type_array comp)

        compiled :
            (r : CompiledWord)
            → WordKept words base r
            → Keeps words base (on_word os run fuel (store_word os run fuel entry name inputs) r)
        compiled none kept = tt
        compiled (some (none, c)) kept = tt
        compiled (some (some blob, c)) (is_blob, k) =
            store_word-Keeps os sized words run keeps fuel base entry name inputs blob c k

        defined :
            (d : Option WordDefinition)
            → Keeps words base (
                d >>= λ def.
                on_word os run fuel
                  (store_word os run fuel entry name inputs)
                  (word_compile_with_context os run fuel def inputs comp))
        defined none = tt
        defined (some def) =
            compiled _ (word_compile-Kept os sized words run keeps fuel base comp def inputs g)

        looked :
            (o : Option (List ℕ))
            → CidOf o
            → Keeps words base (elim o [
              | some cid ↦ call_word os run fuel entry cid comp
              | none ↦ get_elem? comp.word_defs index >>= λ def.
                  on_word os run fuel
                    (store_word os run fuel entry name inputs)
                    (word_compile_with_context os run fuel def inputs comp)
            ])
        looked none size = defined (get_elem? comp.word_defs index)
        looked (some cid) size =
            call_word-Keeps os sized words run keeps fuel base comp entry cid size g

    plain-Keeps :
        (entry : DictEntry) (comp : Compiler)
        → IsSound entry
        → Grows words base comp
        → Keeps words base (compile_plain os run fuel entry comp)
    unfolding compile_plain emit_cell cell_buffer_append emit_call
    plain-Keeps entry comp sound g =
        Keeps-then words base (some (apply_signature comp entry.signature)) _
          (apply_signature-Keeps words base comp entry.signature g)
          λ c k. elim (Bool-cases entry.is_primitive) [
            | inl primitive ↦
                let ok =
                  sound.numbered (ap (λ b. b || one_of emitted_names entry.name) primitive) in
                rw primitive (emit_call-Grows words base c entry k ok)
            | inr other ↦ rw other (refers c k entry.cid refl)
          ]
      where
        refers :
            (c : Compiler)
            → Grows words base c
            → (o : Option (List ℕ)) → entry.cid ≡ o
            → Keeps words base (elim o [
              | none ↦ fails (emit_cell (encode_xt 0) c)
              | some cid ↦ emit_ref blob_word cid (emit_cell (encode_xt 0) c)
            ])
        refers c k none at = tt
        refers c k (some cid) at =
            emit_ref-Keeps words base c (emit_cell (encode_xt 0) c) (encode_xt 0) blob_word cid k
              refl refl (IsReady-as words c _ refl refl refl k.ready) (omega arith)
              (sound.sized cid at)

    entry-Keeps :
        (name : List ℕ) (entry : DictEntry) (comp : Compiler)
        → IsSound entry
        → Grows words base comp
        → Keeps words base (compile_entry os run fuel name entry comp)
    unfolding compile_entry
    entry-Keeps name entry comp sound g =
        branch-Keeps words base entry.is_immediate _ _ (handled entry.handler)
          (defined entry.word_def)
      where
        handled :
            (o : Option ℕ)
            → Keeps words base
                (elim o [ none ↦ fails comp | some handler ↦ call_handler os run handler comp ])
        handled none = tt
        handled (some handler) = call_handler-Keeps words base run keeps os handler comp sized g

        defined :
            (o : Option ℕ)
            → Keeps words base (elim o [
              | some index ↦ compile_stored os run fuel entry name index comp
              | none ↦ compile_plain os run fuel entry comp
            ])
        defined none = plain-Keeps entry comp sound g
        defined (some index) = stored-Keeps entry name index comp g

    typed-Keeps :
        (name : List ℕ) (comp : Compiler)
        → Grows words base comp
        → Keeps words base (compile_typed os run fuel name comp)
    unfolding compile_typed
    typed-Keeps name comp g = go (dict_lookup_typed comp.dict name (type_array comp)) (
        dict_lookup_typed-OfFound IsSound words comp.dict name (type_array comp) g.ready.holds
          g.ready.sound)
      where
        go :
            (o : Option DictEntry)
            → OfFound IsSound o
            → Keeps words base (elim o [
              | none ↦ fails comp
              | some entry ↦ compile_entry os run fuel name entry comp
            ])
        go none sound = tt
        go (some entry) sound = entry-Keeps name entry comp sound g

    word-Keeps :
        (name : List ℕ) (comp : Compiler)
        → Grows words base comp
        → Keeps words base (compile_word os run fuel name comp)
    unfolding compile_word
    word-Keeps name comp g = go (dict_lookup comp.dict name)
      where
        waits : DictEntry → Bool
        waits entry =
            not entry.is_immediate
            && not (length comp.quot_stack == 0)
            && comp.buffer_stack_depth == 0

        go :
            (o : Option DictEntry)
            → Keeps words base (elim o [
              | none ↦ fails comp
              | some entry ↦
                  (if waits entry then materialize_quotations os run fuel comp else done comp)
                  >> compile_typed os run fuel name
            ])
        go none = tt
        go (some entry) =
            Keeps-then words base _ (compile_typed os run fuel name)
              (branch-Keeps words base (waits entry) _ _
                (materialize_quotations-Keeps words base os sized run fuel comp keeps g) g)
              (λ c k. typed-Keeps name c k)

    kind-Keeps :
        (type : TokenType) (tok : Token) (comp : Compiler)
        → Grows words base comp
        → Keeps words base (token_kind os run fuel type tok comp)
    unfolding token_kind
    kind-Keeps tok_number tok comp g = compile_number-Keeps words base os sized comp tok.number g
    kind-Keeps tok_string tok comp g = compile_string-Keeps words base os sized comp tok.text g
    kind-Keeps tok_word tok comp g = word-Keeps tok.text comp g
    kind-Keeps tok_lparen tok comp g = (brackets-Keep words base comp g).0
    kind-Keeps tok_rparen tok comp g = (brackets-Keep words base comp g).1
    kind-Keeps tok_lbracket tok comp g = (brackets-Keep words base comp g).2
    kind-Keeps tok_rbracket tok comp g = compile_rbracket-Keeps os sized words base comp g
    kind-Keeps _ tok comp g = tt

  pub token-KeepsRun : (fuel : ℕ) → KeepsRun words (compile_token os fuel)
  unfolding compile_token token_step
  token-KeepsRun zero base comp tok g = tt
  token-KeepsRun (suc fuel) base comp tok g =
      kind-Keeps (λ t c. compile_token os fuel t c) (λ b c t k. token-KeepsRun fuel b c t k) fuel
        base tok.type tok comp g
