-- ===== src/Compiler/Define.antt =====
-- src/compiler.c: the definitions of a file. Inside a definition the tokens are kept, in the word
-- or in the quotation that is open. The loops over the tokens are on fuel; a token that is read is
-- at least one byte, so one more than the bytes of the file is enough. The text that the
-- definition's tokens are joined to is not used.
pub mod Ends
use march.Prelude.{
  ℕ, zero, suc, ◌+◌, ◌-◌, Bool, true, false, ◌&&◌, Option, none, some, List, [], ◌∷◌, ◌++◌, ltb,
  leb, ◌==◌, if◌then◌else◌, ◌>>=◌, bytes_eq, length, take,
}
use march.Types.{type_unknown}
use march.Cells.{cell_buffer_clear}
use march.Blob.{blob_buffer_clear}
use march.Tokens.{
  Token, TokenStream, TokenType, tok_eof, tok_number, tok_word, tok_string, tok_colon,
  tok_semicolon, tok_lparen, tok_rparen, tok_lbracket, tok_rbracket, tok_dollar, tok_comment,
  token_stream_create, token_stream_next,
}
use march.Dictionary.{TypeSig, dict_add}
use march.Dictionary.Parse.{parse_type_sig}
use march.Compiler.{Compiler, Quotation, WordDefinition}
use march.Compiler.Emit.{Result, done, fails}
use march.Compiler.Quotations.{compile_lparen, compile_rparen, quot_append_token}

abbrev pub max_word_defs : ℕ
max_word_defs = 256

abbrev pub is_semicolon : TokenType → Bool
is_semicolon tok_semicolon = true
is_semicolon _ = false

-- The text in `sig_buffer`, and whether its NUL is written behind it.
pub record SigBuffer : Type 0 where
  pub text : List ℕ
  pub ended : Bool

-- `--` becomes `->`; no token has this text, since it starts a comment.
abbrev pub arrow_text : List ℕ → List ℕ → List ℕ
arrow_text tok text =
    if bytes_eq tok (45 ∷ 45 ∷ []) && leb 2 (length text)
    then take (length text - 2) text ++ 45 ∷ 62 ∷ []
    else text

pub append_sig : SigBuffer → List ℕ → SigBuffer
append_sig buffer tok =
    let spaced = ltb 0 (length buffer.text) && ltb (length buffer.text) 255 in
    let text = if spaced then buffer.text ++ 32 ∷ [] else buffer.text in
    if ltb (length text + length tok) 255
    then record { text = arrow_text tok (text ++ tok); ended = true }
    else record {
      text = arrow_text tok text;
      ended = buffer.ended && (if spaced then false else true);
    }

abbrev pub Collected {ℓ} : Type ℓ → Type ℓ
Collected A = Option (A × TokenStream)

-- The tokens up to `;` or the end.
pub collect_sig : ℕ → SigBuffer → TokenStream → Collected SigBuffer
unfolding append_sig
collect_sig zero buffer stream = none
collect_sig (suc fuel) buffer stream = token_stream_next stream >>= λ r. elim r.0 [
  | none ↦ some (buffer, r.1)
  | some tok ↦
      if is_semicolon tok.type
      then some (buffer, r.1)
      else collect_sig fuel (append_sig buffer tok.text) r.1
]

-- The result of a step of the file's loop, with the file behind it.
abbrev pub FileResult : Type 0
FileResult = Option ((Bool × Compiler) × TokenStream)

abbrev pub stop_at : TokenStream → Compiler → FileResult
stop_at stream comp = some ((false, comp), stream)

abbrev pub go_on : TokenStream → Compiler → FileResult
go_on stream comp = some ((true, comp), stream)

-- A text without its NUL is read past its end.
pub parse_sig_buffer : SigBuffer → TokenStream → Compiler → FileResult
parse_sig_buffer buffer stream comp =
    if buffer.ended
    then elim (parse_type_sig buffer.text) [
      | none ↦ stop_at stream (record comp { pending_type_sig = none })
      | some sig ↦ go_on stream (record comp { pending_type_sig = some sig })
    ]
    else none

pub compile_type_sig_decl : TokenStream → Compiler → FileResult
unfolding collect_sig parse_sig_buffer
compile_type_sig_decl stream comp =
    collect_sig (suc (length stream.rest)) (record { text = []; ended = true }) stream >>= λ r.
    parse_sig_buffer r.0 r.1 comp

pub word_definition_create : List ℕ → WordDefinition
word_definition_create name = record { name = name; tokens = []; type_sig = none }

pub word_def_append_token : WordDefinition → Token → WordDefinition
word_def_append_token def tok = record def { tokens = def.tokens ++ tok ∷ [] }

-- The quotation at the top of the stack keeps the token.
pub capture : Token → Compiler → Option Compiler
capture tok comp = elim comp.quot_stack [
  | [] ↦ none
  | quot ∷ rest ↦ some (record comp { quot_stack = quot_append_token quot tok ∷ rest })
]

abbrev pub keeping : WordDefinition → Result → Option (Bool × (Compiler × WordDefinition))
keeping def none = none
keeping def (some (ok, comp)) = some (ok, (comp, def))

-- One token of a definition, by its type.
pub define_kind :
    TokenType → Token → Compiler → WordDefinition → Option (Bool × (Compiler × WordDefinition))
unfolding capture
define_kind tok_lparen tok comp def = keeping def (compile_lparen comp)
define_kind tok_rparen tok comp def = keeping def (compile_rparen comp)
define_kind _ tok comp def =
    if comp.buffer_stack_depth == 0
    then some (true, (comp, word_def_append_token def tok))
    else (capture tok comp >>= λ c. some (true, (c, def)))

pub define_token : Token → Compiler → WordDefinition → Option (Bool × (Compiler × WordDefinition))
unfolding define_kind
define_token tok comp def = define_kind tok.type tok comp def

abbrev pub Body : Type 0
Body = Bool × (Compiler × WordDefinition)

-- The loop over the tokens of a definition, from a place of the file on.
abbrev pub Defining : Type 0
Defining = TokenStream → Compiler → WordDefinition → Collected Body

pub define_on : Defining → TokenStream → Body → Collected Body
define_on loop stream (false, (comp, def)) = some ((false, (comp, def)), stream)
define_on loop stream (true, (comp, def)) = loop stream comp def

pub define_next : Defining → Option Token × TokenStream → Compiler → WordDefinition → Collected Body
unfolding define_token define_on
define_next loop (none, stream) comp def = some ((true, (comp, def)), stream)
define_next loop (some tok, stream) comp def =
    if is_semicolon tok.type
    then some ((true, (comp, def)), stream)
    else (define_token tok comp def >>= define_on loop stream)

pub define_loop : ℕ → Defining
unfolding define_next
define_loop zero stream comp def = none
define_loop (suc fuel) stream comp def =
    token_stream_next stream >>= λ r. define_next (λ s c d. define_loop fuel s c d) r comp def

abbrev pub sig_or_unknown : Option TypeSig → TypeSig
sig_or_unknown none = record { inputs = []; outputs = type_unknown ∷ [] }
sig_or_unknown (some sig) = sig

-- The definition is kept, and its name added to the dictionary.
pub add_definition : WordDefinition → Compiler → Bool × Compiler
add_definition def comp = if leb max_word_defs (length comp.word_defs) then (false, comp) else (
  true,
  record comp {
    word_defs = comp.word_defs ++ def ∷ [];
    pending_type_sig = none;
    dict = dict_add comp.dict def.name (record {
      addr = 0;
      cid = none;
      prim_id = 0;
      sig = some (sig_or_unknown def.type_sig);
      is_primitive = false;
      is_immediate = false;
      handler = none;
      word_def = some (length comp.word_defs);
    });
  },
)

-- The buffers and the stack of types are cleared, and the pending signature goes to the word.
abbrev pub start_definition : Compiler → Compiler
start_definition comp = record comp {
  cells = cell_buffer_clear comp.cells;
  blob = blob_buffer_clear comp.blob;
  type_stack = [];
  pending_type_sig = none;
}

pub finish_definition : Body → TokenStream → FileResult
unfolding add_definition
finish_definition (false, (comp, def)) stream = stop_at stream comp
finish_definition (true, (comp, def)) stream = some (add_definition def comp, stream)

pub define_named : List ℕ → TokenStream → Compiler → FileResult
unfolding define_loop finish_definition
define_named name stream comp =
    define_loop (suc (length stream.rest)) stream (start_definition comp)
      (record (word_definition_create name) { type_sig = comp.pending_type_sig })
    >>= λ r. finish_definition r.0 r.1

abbrev pub is_word : TokenType → Bool
is_word tok_word = true
is_word _ = false

pub name_token : Compiler → Option Token × TokenStream → FileResult
unfolding define_named
name_token comp (none, stream) = stop_at stream comp
name_token comp (some tok, stream) =
    if is_word tok.type then define_named tok.text stream comp else stop_at stream comp

pub compile_definition : TokenStream → Compiler → FileResult
unfolding name_token
compile_definition stream comp = token_stream_next stream >>= name_token comp

-- A token at the top of a file.
pub file_token : Token → TokenStream → Compiler → FileResult
file_token tok stream comp = elim tok.type [
  | tok_dollar ↦ compile_type_sig_decl stream comp
  | tok_colon ↦ compile_definition stream comp
  | tok_number ↦ stop_at stream comp
  | tok_word ↦ stop_at stream comp
  | _ ↦ go_on stream comp
]

pub file_loop : ℕ → TokenStream → Compiler → Result
unfolding file_token
file_loop zero stream comp = none
file_loop (suc fuel) stream comp = token_stream_next stream >>= λ r. elim r.0 [
  | none ↦ done comp
  | some tok ↦ file_token tok r.1 comp >>= λ s. elim s.0.0 [
    | false ↦ fails s.0.1
    | true ↦ file_loop fuel s.1 s.0.1
  ]
]

-- The file is its bytes; one that cannot be opened is a failure before this.
pub compiler_compile_file : Compiler → List ℕ → Result
unfolding file_loop
compiler_compile_file comp file = file_loop (suc (length file)) (token_stream_create file) comp
