-- ===== src/Compiler/Examples.antt =====
-- src/compiler.c at concrete inputs: a compiler with three values on the stack of types.
use march.Prelude.{Bool}
use march.Cells.{encode_xt, encode_exit}
use march.Blob.{BlobBuffer, blob_buffer_create, blob_buffer_append_u16, encode_primitive}
use march.Blob.Buffer
use march.Blob.Codec.{primitive, blob_of}
use march.Tokens.{TokenStream, token_stream_create}
use march.Compiler.{Quotation}
use march.Compiler.Branches.{LoopPrims, if_cells, times_cells, times_blob, until_cells, until_blob}
use march.Compiler.Define.{compile_definition}
use march.Compiler.Define.Ends.{IsOpen, no_quotations, compile_definition_total}
use march.Compiler.Mirror.{IsPrimId, Mirrors, as_call, none_left, IsCompiled}
use march.Compiler.Mirror.Offsets.{if_list, if_cells-eq, times_list, until_list}
use march.Compiler.Mirror.Loops.{times_items}
use march.Compiler.Mirror.Until.{until_items}
use march.Compiler.Mirror.Room.{times_code-eq, until_code-eq}
use march.Prelude.{
  ◌-◌, drop, length, ℕ, ◌<◌, ◌≡◌, ◌⊎◌, refl, true, false, none, some, List, [], ◌∷◌, ◌++◌, arith,
  bytes_eq, replicate,
}
use march.Types.{type_i64, type_f64, type_str, type_var_a, max_slots}
use march.Dictionary.{
  TypeSig, DictEntry, Dictionary, Definition, dict_create, dict_add, make_entry, find_name,
  dict_lookup, match_score, match_input, match_loop,
}
use march.Database.{Database}
use march.Dictionary.Chains.{create-Holds, add-Holds, dict_lookup-eq}
use march.Compiler.{
  Compiler, StackEntry, plain_entry, with_stack, compiler_create, allocate_slot, free_slot,
}
use march.Compiler.Accept.{Applies, match_score-Applies, type_array_of}
use march.Compiler.Words.{name_rot}
use march.Compiler.Agree.{Agrees, word_rot, handler-Agrees}
use march.Compiler.Slots.{
  Takes, create-IsValid, allocate_slot-Takes, in_use, free_slot-allocate_slot,
}
use march.Compiler.Mutable.{NoneCompatible, match_score-NoneCompatible}
use march.Compiler.Specialize.{Stores, specialization_store-Stores}

abbrev rot_definition : Definition
rot_definition = record {
  addr = 0x2000;
  cid = none;
  prim_id = 10;
  sig = none;
  is_primitive = true;
  is_immediate = false;
  handler = none;
  word_def = none;
}

abbrev dict : Dictionary
dict = dict_add dict_create name_rot rot_definition

abbrev prim : DictEntry
prim = make_entry name_rot rot_definition

abbrev empty_db : Database
empty_db = record { type_signatures = []; blobs = [] }

abbrev comp : Compiler
comp = compiler_create dict empty_db

rot-found : dict_lookup comp.dict name_rot ≡ some prim
unfolding compiler_create find_name bytes_eq make_entry
rot-found =
    dict_lookup-eq (prim ∷ []) dict name_rot
      (add-Holds [] dict_create name_rot rot_definition create-Holds)

abbrev stack : List StackEntry
stack = plain_entry type_i64 ∷ plain_entry type_f64 ∷ plain_entry type_str ∷ []

handler-Agrees_example :
    (h : Compiler) × (d : Compiler) × Agrees word_rot (with_stack comp stack) h d
handler-Agrees_example =
    handler-Agrees word_rot comp prim stack rot-found (omega arith) (omega arith) (omega arith)

-- "a i64 -> a a", with the float and the integer as the inputs.
abbrev sig : TypeSig
sig = record { inputs = type_var_a ∷ type_i64 ∷ []; outputs = type_var_a ∷ type_var_a ∷ [] }

abbrev top : List StackEntry
top = plain_entry type_i64 ∷ plain_entry type_f64 ∷ []

abbrev rest : List StackEntry
rest = plain_entry type_str ∷ []

sig-score : match_score sig (type_array_of (top ++ rest)) ≡ some 180
unfolding match_score match_loop match_input
sig-score = refl

match_score-Applies_example : Applies comp sig top rest
match_score-Applies_example =
    match_score-Applies comp sig top rest 180 refl (omega arith) sig-score refl (omega arith)

allocate_slot-Takes_example :
    ((i : ℕ) × (after : Compiler) × Takes comp i after)
    ⊎ ((allocate_slot comp ≡ (none, comp)) × ((i : ℕ) → i < max_slots → in_use comp i ≡ true))
allocate_slot-Takes_example = allocate_slot-Takes comp (create-IsValid dict empty_db)

specialization_store-Stores_example :
    (after : Compiler) × Stores comp name_rot (type_i64 ∷ type_f64 ∷ []) (replicate 32 7) after
unfolding compiler_create
specialization_store-Stores_example =
    specialization_store-Stores comp name_rot (type_i64 ∷ type_f64 ∷ []) (replicate 32 7)
      (omega arith) (omega arith)

abbrev taken : Compiler
taken = (allocate_slot comp).1

free_slot-allocate_slot_example : in_use (free_slot taken (some 0)) 0 ≡ in_use comp 0
unfolding allocate_slot compiler_create
free_slot-allocate_slot_example =
    free_slot-allocate_slot comp 0 taken (create-IsValid dict empty_db) refl 0

match_score-NoneCompatible_example :
    NoneCompatible sig.inputs (
      drop (length (type_array_of (top ++ rest)) - length sig.inputs) (type_array_of (top ++ rest)))
match_score-NoneCompatible_example =
    match_score-NoneCompatible sig (type_array_of (top ++ rest)) 180 (omega arith) sig-score

-- A quotation of one call, compiled: its cell, and EXIT.
abbrev quoted : ℕ → Quotation
quoted addr = record {
  is_literal = false;
  cells = record { cells = encode_xt addr ∷ encode_exit ∷ []; capacity = 16; allocated = 128 };
  blob = blob_buffer_create;
  tokens = [];
  inputs = [];
  outputs = [];
}

if_cells-eq_example :
    (if_cells prim prim (quoted 8) (quoted 16) comp.cells).cells
    ≡ comp.cells.cells
      ++ if_list prim prim (quoted 8) (quoted 16) (encode_xt 8 ∷ []) (encode_xt 16 ∷ []) refl refl
if_cells-eq_example =
    if_cells-eq prim prim (quoted 8) (quoted 16) (encode_xt 8 ∷ []) (encode_xt 16 ∷ []) refl refl
      comp.cells

-- The same with the call of the primitive 1 in its blob.
abbrev calling : ℕ → Quotation
calling addr = record (quoted addr) { blob = encode_primitive blob_buffer_create 1 }

calling-IsCompiled : (addr : ℕ) → IsCompiled (calling addr)
unfolding encode_primitive blob_buffer_append_u16 blob_buffer_create
calling-IsCompiled addr = record {
  cells = encode_xt addr ∷ [];
  items = primitive 1 ∷ [];
  in_cells = refl;
  in_blob = refl;
  mirrored = as_call addr 1 [] [] (omega arith) none_left;
}

calling-few : (addr : ℕ) → length (calling addr).blob.bytes < 100
unfolding encode_primitive blob_buffer_append_u16 blob_buffer_create
calling-few addr = omega arith

abbrev call_prim : DictEntry
call_prim = record prim { prim_id = 1 }

abbrev loop_prims : LoopPrims
loop_prims = record {
  tor = call_prim;
  fromr = call_prim;
  rfetch = call_prim;
  rdrop = call_prim;
  sub = call_prim;
  zbranch = call_prim;
  branch = call_prim;
}

numbered : IsPrimId 1
numbered = omega arith

no_bytes : length blob_buffer_create.bytes ≡ 0
unfolding blob_buffer_create
no_bytes = refl

times_code-eq_example :
    ((times_cells loop_prims (calling 8) comp.cells).cells
      ≡ comp.cells.cells
        ++ times_list loop_prims
            (calling 8)
            (calling-IsCompiled 8).cells
            (calling-IsCompiled 8).in_cells)
    × ((b : BlobBuffer) × (times_blob loop_prims (calling 8) blob_buffer_create ≡ some b)
        × (b.bytes
            ≡ blob_buffer_create.bytes
              ++ blob_of (times_items loop_prims (calling 8) (calling-IsCompiled 8))))
    × Mirrors
        (times_list loop_prims
          (calling 8)
          (calling-IsCompiled 8).cells
          (calling-IsCompiled 8).in_cells)
        (times_items loop_prims (calling 8) (calling-IsCompiled 8))
times_code-eq_example =
    times_code-eq loop_prims (calling 8) (calling-IsCompiled 8) numbered numbered numbered numbered
      numbered numbered numbered comp.cells blob_buffer_create Buffer.create-IsValid
      (omega (arith, no_bytes, calling-few 8))

until_code-eq_example :
    ((until_cells call_prim (calling 8) (calling 16) comp.cells).cells
      ≡ comp.cells.cells
        ++ until_list call_prim
            (calling 8)
            (calling 16)
            (calling-IsCompiled 8).cells
            (calling-IsCompiled 16).cells
            (calling-IsCompiled 8).in_cells
            (calling-IsCompiled 16).in_cells)
    × ((b : BlobBuffer) × (until_blob call_prim (calling 8) (calling 16) blob_buffer_create
          ≡ some b)
        × (b.bytes
            ≡ blob_buffer_create.bytes
              ++ blob_of (
                  until_items call_prim
                    (calling 8)
                    (calling 16)
                    (calling-IsCompiled 8)
                    (calling-IsCompiled 16))))
    × Mirrors
        (until_list call_prim
          (calling 8)
          (calling 16)
          (calling-IsCompiled 8).cells
          (calling-IsCompiled 16).cells
          (calling-IsCompiled 8).in_cells
          (calling-IsCompiled 16).in_cells)
        (until_items call_prim
          (calling 8)
          (calling 16)
          (calling-IsCompiled 8)
          (calling-IsCompiled 16))
until_code-eq_example =
    until_code-eq call_prim (calling 8) (calling 16) (calling-IsCompiled 8) (calling-IsCompiled 16)
      numbered comp.cells blob_buffer_create Buffer.create-IsValid
      (omega (arith, no_bytes, calling-few 8, calling-few 16))

-- w ( 1 ) ;
abbrev definition_text : List ℕ
definition_text = 119 ∷ 32 ∷ 40 ∷ 32 ∷ 49 ∷ 32 ∷ 41 ∷ 32 ∷ 59 ∷ []

comp-IsOpen : IsOpen comp
unfolding compiler_create
comp-IsOpen = record { literal = no_quotations; opened = omega arith }

definition_text-going : (token_stream_create definition_text).eof ≡ false
unfolding token_stream_create
definition_text-going = refl

compile_definition_total_example :
    (r : (Bool × Compiler) × TokenStream) × (compile_definition
        (token_stream_create definition_text)
        comp
      ≡ some r)
    × IsOpen r.0.1
compile_definition_total_example =
    compile_definition_total (token_stream_create definition_text) comp definition_text-going
      comp-IsOpen
