-- ===== src/Compiler/Define/Ends.antt =====
-- src/compiler.c: `compile_definition` returns, whatever the file holds, and the quotations that it
-- leaves open or waiting are such as it can go on with.
use march.Prelude.{
  ℕ, zero, suc, ◌≤◌, ◌<◌, ◌≡◌, refl, Bool, true, false, Option, none, some, List, [], ◌∷◌, arith,
  ap, Bool-cases, inl, inr, ◌==◌, leb, if◌then◌else◌, ◌>>=◌, length,
}
use march.Tokens.{Token, TokenStream, TokenType, tok_lparen, tok_rparen}
use march.Tokens.Next.{Advances, token_stream_next_total}
use march.Compiler.{Compiler, Quotation, WordDefinition}
use march.Compiler.Emit.{Result}
use march.Compiler.Quotations.{compile_lparen, compile_rparen, quot_append_token}
use march.Compiler.Define.{
  Collected, Defining, FileResult, Body, is_semicolon, capture, keeping, define_kind, define_on,
  define_next, define_loop, word_def_append_token, add_definition, start_definition,
  finish_definition, define_named, word_definition_create, name_token, compile_definition, is_word,
}

-- Every quotation is still a list of tokens.
pub data AllLiteral : List Quotation → Type 0 where
  no_quotations : AllLiteral []
  one_more :
      (quot : Quotation) (quots : List Quotation)
      → quot.is_literal ≡ true
      → AllLiteral quots
      → AllLiteral (quot ∷ quots)

-- The quotations wait as tokens, and those that are open are among them.
pub record IsOpen (comp : Compiler) : Type 0 where
  pub literal : AllLiteral comp.quot_stack
  pub opened : comp.buffer_stack_depth ≤ length comp.quot_stack

abbrev Closes : Result → Type 0
Closes r = (ok : Bool) × (comp : Compiler) × (r ≡ some (ok, comp)) × IsOpen comp

lparen-Closes : (comp : Compiler) → IsOpen comp → Closes (compile_lparen comp)
unfolding compile_lparen
lparen-Closes comp ok = elim (Bool-cases (leb 16 (length comp.quot_stack))) [
  | inl full ↦ rw full (false, comp, refl, ok)
  | inr room ↦ rw room (
    true,
    _,
    refl,
    record {
      literal = one_more _ comp.quot_stack refl ok.literal;
      opened = omega (arith, ok.opened);
    },
  )
]

-- The same compiler, its stack of quotations spelled out.
spelled :
    (comp : Compiler) (quots : List Quotation)
    → comp.quot_stack ≡ quots
    → IsOpen comp
    → AllLiteral quots
    → IsOpen (record comp { quot_stack = quots })
spelled comp quots at ok all = record {
  literal = all;
  opened = omega (arith, ok.opened, ap (λ (q : List Quotation). length q) at);
}

rparen_literal :
    (comp : Compiler) (quots : List Quotation)
    → comp.quot_stack ≡ quots
    → IsOpen comp
    → AllLiteral quots
    → Closes (compile_rparen comp)
unfolding compile_rparen
rparen_literal comp [] at ok all = rw at (false, _, refl, spelled comp [] at ok all)
rparen_literal comp (quot ∷ quots) at ok (one_more _ _ literal all) =
    let ok' = spelled comp (quot ∷ quots) at ok (one_more quot quots literal all) in
    elim (Bool-cases (comp.buffer_stack_depth == 0)) [
      | inl none_open ↦ rw (at, none_open) (false, _, refl, ok')
      | inr some_open ↦
          rw (at, some_open, literal)
            (
              true,
              _,
              refl,
              record { literal = one_more _ quots refl all; opened = omega (arith, ok'.opened) },
            )
    ]

-- A closing bracket finds a literal quotation, so that it returns.
rparen-Closes : (comp : Compiler) → IsOpen comp → Closes (compile_rparen comp)
rparen-Closes comp ok = rparen_literal comp comp.quot_stack refl ok ok.literal

capture-IsOpen :
    (tok : Token) (comp : Compiler) (quots : List Quotation)
    → comp.quot_stack ≡ quots
    → IsOpen comp
    → AllLiteral quots
    → (comp.buffer_stack_depth == 0) ≡ false
    → (c : Compiler) × (capture tok comp ≡ some c) × IsOpen c
unfolding capture quot_append_token
capture-IsOpen tok comp [] at ok all some_open =
    absurd (ground (arith, ok.opened, ap (λ (q : List Quotation). length q) at))
capture-IsOpen tok comp (quot ∷ quots) at ok (one_more _ _ literal all) some_open = rw at (
  _,
  refl,
  record {
    literal = one_more _ quots literal all;
    opened = omega (arith, ok.opened, ap (λ (q : List Quotation). length q) at);
  },
)

-- A token of a definition is taken, or it is a bracket that is refused.
abbrev Taken : Option Body → Type 0
Taken o = (d : Body) × (o ≡ some d) × IsOpen d.1.0

keeping-Taken : (def : WordDefinition) (r : Result) → Closes r → Taken (keeping def r)
keeping-Taken def r (ok, comp, e, is_open) = rw e ((ok, (comp, def)), refl, is_open)

kept_token :
    (tok : Token) (comp : Compiler) (def : WordDefinition)
    → IsOpen comp
    → Taken (
        if comp.buffer_stack_depth == 0
        then some (true, (comp, word_def_append_token def tok))
        else (capture tok comp >>= λ c. some (true, (c, def))))
kept_token tok comp def ok = elim (Bool-cases (comp.buffer_stack_depth == 0)) [
  | inl none_open ↦ rw none_open (_, refl, ok)
  | inr some_open ↦
      let (c, e, ok') = capture-IsOpen tok comp comp.quot_stack refl ok ok.literal some_open in
      rw (some_open, e) (_, refl, ok')
]

define_kind-Taken :
    (type : TokenType) (tok : Token) (comp : Compiler) (def : WordDefinition)
    → IsOpen comp
    → Taken (define_kind type tok comp def)
unfolding define_kind
define_kind-Taken tok_lparen tok comp def ok = keeping-Taken def _ (lparen-Closes comp ok)
define_kind-Taken tok_rparen tok comp def ok = keeping-Taken def _ (rparen-Closes comp ok)
define_kind-Taken _ tok comp def ok = kept_token tok comp def ok

abbrev Stops : Collected Body → Type 0
Stops o = (r : Body × TokenStream) × (o ≡ some r) × IsOpen r.0.1.0

define_on_total :
    (loop : Defining) (behind : TokenStream) (d : Body)
    → ((c : Compiler) (def : WordDefinition) → IsOpen c → Stops (loop behind c def))
    → IsOpen d.1.0
    → Stops (define_on loop behind d)
unfolding define_on
define_on_total loop behind (false, d) stops ok = (((false, d), behind), refl, ok)
define_on_total loop behind (true, (comp, def)) stops ok = stops comp def ok

define_next_total :
    (fuel : ℕ) (stream : TokenStream) (r : Option Token × TokenStream) (comp : Compiler)
    (def : WordDefinition)
    → ((s : TokenStream) (c : Compiler) (d : WordDefinition)
        → s.eof ≡ false
        → length s.rest < fuel
        → IsOpen c
        → Stops (define_loop fuel s c d))
    → length stream.rest < suc fuel
    → Advances stream r
    → IsOpen comp
    → Stops (define_next (λ s c d. define_loop fuel s c d) r comp def)
unfolding define_next define_on
define_next_total fuel stream (none, behind) comp def loop few nil ok =
    (((true, (comp, def)), behind), refl, ok)
define_next_total fuel stream (some tok, behind) comp def loop few (other, going, less) ok =
    elim (Bool-cases (is_semicolon tok.type)) [
      | inl ends ↦ rw ends (((true, (comp, def)), behind), refl, ok)
      | inr more ↦
          let (d, e, ok') = define_kind-Taken tok.type tok comp def ok in
          rw (more, e)
            (define_on_total (λ s c d. define_loop fuel s c d) behind d
              (λ c d'. loop behind c d' going (omega (arith, less, few))) ok')
    ]

-- The loop has enough fuel: a token that is read is at least a byte.
define_loop_total :
    (fuel : ℕ) (stream : TokenStream) (comp : Compiler) (def : WordDefinition)
    → stream.eof ≡ false
    → length stream.rest < fuel
    → IsOpen comp
    → Stops (define_loop fuel stream comp def)
unfolding define_loop
define_loop_total zero stream comp def going few ok = absurd (omega arith)
define_loop_total (suc fuel) stream comp def going few ok =
    let (r, read, advances) = token_stream_next_total stream going in
    rw read (
      define_next_total fuel stream r comp def (λ s c d. define_loop_total fuel s c d) few advances
        ok)

abbrev Returns : FileResult → Type 0
Returns o = (r : (Bool × Compiler) × TokenStream) × (o ≡ some r) × IsOpen r.0.1

add_definition-IsOpen :
    (def : WordDefinition) (comp : Compiler) → IsOpen comp → IsOpen (add_definition def comp).1
unfolding add_definition
add_definition-IsOpen def comp ok = elim (Bool-cases (leb 256 (length comp.word_defs))) [
  | inl full ↦ rw full ok
  | inr room ↦ rw room (record { literal = ok.literal; opened = ok.opened })
]

finish-Returns :
    (body : Body) (stream : TokenStream) → IsOpen body.1.0 → Returns (finish_definition body stream)
unfolding finish_definition
finish-Returns (false, (comp, def)) stream ok = (((false, comp), stream), refl, ok)
finish-Returns (true, (comp, def)) stream ok = (_, refl, add_definition-IsOpen def comp ok)

named-Returns :
    (name : List ℕ) (stream : TokenStream) (comp : Compiler)
    → stream.eof ≡ false
    → IsOpen comp
    → Returns (define_named name stream comp)
unfolding define_named
named-Returns name stream comp going ok =
    let (r, e, ok') =
      define_loop_total (suc (length stream.rest)) stream (start_definition comp)
        (record (word_definition_create name) { type_sig = comp.pending_type_sig }) going
        (omega arith) (record { literal = ok.literal; opened = ok.opened }) in
    rw e (finish-Returns r.0 r.1 ok')

name_token-Returns :
    (stream : TokenStream) (comp : Compiler) (r : Option Token × TokenStream)
    → Advances stream r
    → IsOpen comp
    → Returns (name_token comp r)
unfolding name_token
name_token-Returns stream comp (none, behind) nil ok = (_, refl, ok)
name_token-Returns stream comp (some tok, behind) (other, going, less) ok =
    elim (Bool-cases (is_word tok.type)) [
      | inl word ↦ rw word (named-Returns tok.text behind comp going ok)
      | inr no_word ↦ rw no_word (_, refl, ok)
    ]

-- `compile_definition` returns, on any file that is not at its end and with quotations that wait as
-- tokens, the open ones among them; and it leaves quotations of this kind.
pub compile_definition_total :
    (stream : TokenStream) (comp : Compiler)
    → stream.eof ≡ false
    → IsOpen comp
    → (r : (Bool × Compiler) × TokenStream) × (compile_definition stream comp ≡ some r)
      × IsOpen r.0.1
unfolding compile_definition
compile_definition_total stream comp going ok =
    let (r, read, advances) = token_stream_next_total stream going in
    rw read (name_token-Returns stream comp r advances ok)
