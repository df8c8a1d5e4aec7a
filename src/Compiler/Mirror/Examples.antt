-- ===== src/Compiler/Mirror/Examples.antt =====
-- src/compiler.c at concrete inputs: a word "w" that adds 2, in a dictionary with "+".
use march.Compiler.Register.{compiler_register_primitives}
use march.Primitives.Table.{primitives}
use march.Compiler.Mirror.Registered.{
  registered_words, FoundIn, compiler_register_primitives-IsReady,
  compiler_register_primitives-found,
}
use march.Prelude.{
  ◌+◌, ◌*◌, ℕ, ◌≡◌, refl, true, false, none, some, List, [], ◌∷◌, arith, length, map, replicate,
  bytes_eq,
}
use march.Types.{type_i64}
use march.Tokens.{Token, tok_number, tok_word}
use march.Database.{Storage}
use march.Dictionary.{DictEntry, Dictionary, Definition, dict_create, dict_add, make_entry}
use march.Dictionary.Chains.{create-Holds, add-Holds}
use march.Compiler.{Compiler, WordDefinition, plain_entry, compiler_create}
use march.Compiler.Emit.{Result}
use march.Compiler.Arrays.{name_add}
use march.Compiler.Word.{compile_token}
use march.Compiler.Define.Ends.{no_quotations}
use march.Compiler.Mirror.{IsReady, Grows}
use march.Compiler.Mirror.Stored.{compile_token-Grows, word_compile-Decodable}
use march.Compiler.Word.{token_step}
use march.Compiler.Word.{token_kind}
use march.Compiler.Word.{compile_word}
use march.Dictionary.{dict_lookup}
use march.Dictionary.{hash_string}
use march.Dictionary.{bucket_of}
use march.Dictionary.{find_name}
use march.Dictionary.{dict_lookup_typed}
use march.Dictionary.{best_loop}
use march.Dictionary.{match_score}
use march.Dictionary.{match_loop}
use march.Dictionary.{match_input}
use march.Compiler.Quotations.{type_array}
use march.Compiler.Quotations.{types_up}
use march.Compiler.Word.{compile_typed}
use march.Compiler.Word.{compile_entry}
use march.Compiler.Word.{compile_stored}
use march.Compiler.{specialization_lookup}
use march.Compiler.{find_specialization}
use march.Compiler.Word.{word_compile_with_context}
use march.Compiler.Compile.{run_tokens}
use march.Compiler.Word.{fresh_word}
use march.Compiler.Handlers.{push_all}
use march.Compiler.{push_type}
use march.Compiler.Word.{finish_word}
use march.Compiler.Emit.{compile_number}
use march.Compiler.Emit.{emit_literal}
use march.Compiler.Emit.{emit_stored}
use march.Compiler.Emit.{emit_cell}
use march.Compiler.Emit.{emit_ref}
use march.Compiler.Word.{compile_plain}
use march.Compiler.Typing.{apply_signature}
use march.Compiler.Typing.{pop_inputs}
use march.Compiler.Typing.{bind_input}
use march.Compiler.Typing.{push_outputs}
use march.Compiler.Typing.{resolve}
use march.Compiler.Typing.{apply_popped}
use march.Compiler.{pop_type_entry}
use march.Compiler.{emit_call}
use march.Compiler.Word.{store_word}
use march.Compiler.Word.{call_word}
use march.Compiler.Compile.{type_words}
use march.Database.{db_store_literal}
use march.Database.{db_store_blob}
use march.Database.{db_store_type_sig}
use march.Blob.{encode_cid_ref}
use march.Blob.{encode_primitive}
use march.Blob.{blob_buffer_append_u16}
use march.Blob.{blob_buffer_append_bytes}
use march.Cells.{cell_buffer_append}
use march.Compiler.{specialization_store}
use march.Blob.{BlobBuffer, blob_buffer_create}
use march.Blob.Codec.{Item, IsEncodable, tag_of, blob_of}
use march.Blob.Decoding.{decode_tags}
use march.Dictionary.Best.{All}
use march.Compiler.Compile.{materialize_quotations}
use march.Compiler.Quotations.{pop_quotation}
use march.Compiler.Word.{CompiledWord}

abbrev os : Storage
os = record { sha256 = λ bytes. replicate 32 7; accepts = λ db. true }

sized : (bytes : List ℕ) → length (os.sha256 bytes) ≡ 32
sized bytes = refl

abbrev plus : Definition
plus = record {
  addr = 0x1000;
  cid = none;
  prim_id = 1;
  sig = some (record { inputs = type_i64 ∷ type_i64 ∷ []; outputs = type_i64 ∷ [] });
  is_primitive = true;
  is_immediate = false;
  handler = none;
  word_def = none;
}

abbrev name_w : List ℕ
name_w = 119 ∷ []

abbrev word : Definition
word = record {
  addr = 0;
  cid = none;
  prim_id = 0;
  sig = some (record { inputs = type_i64 ∷ []; outputs = type_i64 ∷ [] });
  is_primitive = false;
  is_immediate = false;
  handler = none;
  word_def = some 0;
}

abbrev dict : Dictionary
dict = dict_add (dict_add dict_create name_add plus) name_w word

abbrev words : List DictEntry
words = make_entry name_w word ∷ make_entry name_add plus ∷ []

abbrev number : ℕ → Token
number n = record { type = tok_number; text = []; number = n; line = 1; column = 1 }

abbrev named : List ℕ → Token
named text = record { type = tok_word; text = text; number = 0; line = 1; column = 1 }

abbrev definition : WordDefinition
definition = record { name = name_w; tokens = number 2 ∷ named name_add ∷ []; type_sig = none }

abbrev comp : Compiler
comp = record (compiler_create dict (record { type_signatures = []; blobs = [] })) {
  word_defs = definition ∷ [];
}

comp-IsReady : IsReady words comp
unfolding compiler_create make_entry bytes_eq
comp-IsReady = record {
  holds =
      add-Holds (make_entry name_add plus ∷ []) (dict_add dict_create name_add plus) name_w word
        (add-Holds [] dict_create name_add plus create-Holds);
  sound = (
    record { numbered = λ e. ground arith; sized = λ cid e. ground arith },
    (record { numbered = λ e. (omega arith, omega arith); sized = λ cid e. ground arith }, tt),
  );
  cached = tt;
  literal = no_quotations;
}

-- Behind a number, the word is compiled for an integer.
abbrev ready_for_w : Compiler
ready_for_w = record comp { type_stack = plain_entry type_i64 ∷ [] }

abbrev state_of : Result → Compiler
state_of none = comp
state_of (some (ok, c)) = c

abbrev behind : Compiler
behind = state_of (compile_token os 3 (named name_w) ready_for_w)

compiles : compile_token os 3 (named name_w) ready_for_w ≡ some (true, behind)
unfolding compile_token token_step token_kind compile_word dict_lookup compiler_create dict_add
    dict_create make_entry bytes_eq hash_string bucket_of find_name dict_lookup_typed best_loop
    match_score match_loop match_input type_array types_up compile_typed compile_entry
    compile_stored specialization_lookup find_specialization word_compile_with_context run_tokens
    fresh_word push_all push_type finish_word compile_number emit_literal emit_stored emit_cell
    emit_ref compile_plain apply_signature pop_inputs bind_input push_outputs resolve apply_popped
    pop_type_entry emit_call store_word call_word type_words db_store_literal db_store_blob
    db_store_type_sig encode_cid_ref encode_primitive blob_buffer_append_u16
    blob_buffer_append_bytes cell_buffer_append specialization_store blob_buffer_create
    materialize_quotations pop_quotation
compiles = refl

ready_for_w-IsReady : IsReady words ready_for_w
unfolding compiler_create make_entry bytes_eq
ready_for_w-IsReady = record {
  holds = comp-IsReady.holds;
  sound = comp-IsReady.sound;
  cached = tt;
  literal = no_quotations;
}

compile_token-Grows_example : Grows words ready_for_w behind
compile_token-Grows_example =
    compile_token-Grows os sized words 3 (named name_w) ready_for_w behind ready_for_w-IsReady
      compiles

abbrev blob_or_none : CompiledWord → BlobBuffer
blob_or_none none = blob_buffer_create
blob_or_none (some (none, c)) = blob_buffer_create
blob_or_none (some (some blob, c)) = blob

abbrev left_by : CompiledWord → Compiler
left_by none = comp
left_by (some (blob, c)) = c

abbrev compiled : CompiledWord
compiled =
    word_compile_with_context os (compile_token os 1) 1 definition (type_i64 ∷ []) ready_for_w

word_compiles : compiled ≡ some (some (blob_or_none compiled), left_by compiled)
unfolding compile_token token_step token_kind compile_word dict_lookup compiler_create dict_add
    dict_create make_entry bytes_eq hash_string bucket_of find_name dict_lookup_typed best_loop
    match_score match_loop match_input type_array types_up compile_typed compile_entry
    compile_stored specialization_lookup find_specialization word_compile_with_context run_tokens
    fresh_word push_all push_type finish_word compile_number emit_literal emit_stored emit_cell
    emit_ref compile_plain apply_signature pop_inputs bind_input push_outputs resolve apply_popped
    pop_type_entry emit_call store_word call_word type_words db_store_literal db_store_blob
    db_store_type_sig encode_cid_ref encode_primitive blob_buffer_append_u16
    blob_buffer_append_bytes cell_buffer_append specialization_store blob_buffer_create
    materialize_quotations pop_quotation
word_compiles = refl

word_compile-Decodable_example :
    (items : List Item) × ((blob_or_none compiled).bytes ≡ blob_of items)
    × All IsEncodable items
    × (decode_tags (length items) (blob_or_none compiled).bytes ≡ some (map tag_of items))
    × ((left_by compiled).cells ≡ ready_for_w.cells)
    × ((left_by compiled).blob ≡ ready_for_w.blob)
    × ((left_by compiled).type_stack ≡ ready_for_w.type_stack)
word_compile-Decodable_example =
    word_compile-Decodable os sized words 1 1 definition (type_i64 ∷ []) ready_for_w
      (left_by compiled) (blob_or_none compiled) ready_for_w-IsReady word_compiles

-- The routines' addresses for the registrations.
abbrev op_at : ℕ → ℕ
op_at id = 0x400000 + id * 16

abbrev new_compiler : Compiler
new_compiler = compiler_create dict_create (record { type_signatures = []; blobs = [] })

new_compiler-IsReady : IsReady [] new_compiler
unfolding compiler_create
new_compiler-IsReady = record {
  holds = create-Holds;
  sound = tt;
  cached = tt;
  literal = no_quotations;
}

compiler_register_primitives-IsReady_example :
    (words' : List DictEntry) × (dict : Dictionary) × (registered_words op_at [] ≡ some words')
    × (compiler_register_primitives op_at new_compiler ≡ some (record new_compiler { dict = dict }))
    × IsReady words' (record new_compiler { dict = dict })
compiler_register_primitives-IsReady_example =
    compiler_register_primitives-IsReady op_at [] new_compiler new_compiler-IsReady

compiler_register_primitives-found_example :
    (comp' : Compiler) × (compiler_register_primitives op_at new_compiler ≡ some comp')
    × All (FoundIn comp'.dict) (primitives op_at)
compiler_register_primitives-found_example =
    compiler_register_primitives-found op_at [] new_compiler new_compiler-IsReady
