-- ===== src/Compiler/Mirror/Registered.antt =====
-- src/compiler.c, compiler_register_primitives: the dictionary that the other theorems start from.
use mathlib.Core.Path.{subst}
use march.Prelude.{
  ℕ, ◌≡◌, refl, ◌^◌, Bool, true, false, ◌&&◌, ◌||◌, not, Option, none, some, List, [], ◌∷◌, arith,
  ltb, ◌==◌, ==_iff, ◌>>=◌, bytes_eq,
}
use march.Dictionary.{TypeSig, DictEntry, Dictionary, dict_lookup, find_name, make_entry}
use march.Dictionary.Parse.{
  concrete_type, parse_type, end_token, split_tokens, parse_tokens, parse_type_sig,
}
use march.Dictionary.Chains.{Holds, dict_lookup-eq}
use march.Dictionary.Best.{All}
use march.Primitives.{Registration, definition_of, register_all}
use march.Primitives.Table.{primitives, register_primitives}
use march.Primitives.Registered.{added, HoldsAdded, register_all-Holds}
use march.Compiler.{Compiler}
use march.Compiler.Register.{immediate_words, compiler_register_primitives}
use march.Compiler.Mirror.{emitted_names, one_of, IsSound, IsReady}

abbrev parses : Option TypeSig → Bool
parses none = false
parses (some sig) = true

abbrev numbered : Registration → Bool
numbered reg =
    not (reg.is_primitive || one_of emitted_names reg.name)
    || (ltb 0 reg.prim_id && ltb reg.prim_id (2 ^ 15))

all_proper : List Registration → Bool
all_proper [] = true
all_proper (reg ∷ regs) = parses (parse_type_sig reg.type_str) && numbered reg && all_proper regs

entry-IsSound :
    (reg : Registration) (sig : TypeSig)
    → numbered reg ≡ true
    → IsSound (make_entry reg.name (definition_of reg sig))
unfolding make_entry
entry-IsSound reg sig e = record {
  numbered = λ h. (ground arith, ground arith);
  sized = λ cid h. ground arith;
}

AddsSound : Option (List DictEntry) → Type 0
AddsSound o = (words : List DictEntry) × (o ≡ some words) × All IsSound words

added-Sound :
    (regs : List Registration) (words : List DictEntry)
    → all_proper regs ≡ true
    → All IsSound words
    → AddsSound (added regs words)
unfolding all_proper added AddsSound
added-Sound [] words proper sound = (words, refl, sound)
added-Sound (reg ∷ regs) words proper sound =
    go (parse_type_sig reg.type_str)
      (λ sig. added-Sound regs (make_entry reg.name (definition_of reg sig) ∷ words)) proper
  where
    go :
        (o : Option TypeSig)
        → ((sig : TypeSig)
            → all_proper regs ≡ true
            → All IsSound (make_entry reg.name (definition_of reg sig) ∷ words)
            → AddsSound (added regs (make_entry reg.name (definition_of reg sig) ∷ words)))
        → (parses o && numbered reg && all_proper regs) ≡ true
        → AddsSound (o >>= λ sig. added regs (make_entry reg.name (definition_of reg sig) ∷ words))
    go none next p = absurd (ground arith)
    go (some sig) next p = next sig (ground arith) (entry-IsSound reg sig (ground arith), sound)

primitives-proper : (op : ℕ → ℕ) → all_proper (primitives op) ≡ true
unfolding all_proper parse_type_sig parse_tokens split_tokens end_token parse_type concrete_type
    bytes_eq
primitives-proper op = refl

immediate-proper : all_proper immediate_words ≡ true
unfolding all_proper parse_type_sig parse_tokens split_tokens end_token parse_type concrete_type
    bytes_eq
immediate-proper = refl

-- The words of the dictionary after the registrations, the last first.
abbrev pub registered_words : (ℕ → ℕ) → List DictEntry → Option (List DictEntry)
registered_words op words = added (primitives op) words >>= added immediate_words

-- On a compiler that is ready, compiler_register_primitives makes all of the registrations, since
-- the texts of their types are types. The compiler is then ready with the registered words in front
-- of its own, and nothing but its dictionary is changed.
pub compiler_register_primitives-IsReady :
    (op : ℕ → ℕ) (words : List DictEntry) (comp : Compiler)
    → IsReady words comp
    → (words' : List DictEntry) × (dict : Dictionary) × (registered_words op words ≡ some words')
      × (compiler_register_primitives op comp ≡ some (record comp { dict = dict }))
      × IsReady words' (record comp { dict = dict })
unfolding compiler_register_primitives register_primitives AddsSound
compiler_register_primitives-IsReady op words comp g =
    let first = added-Sound (primitives op) words (primitives-proper op) g.sound in
    let second = added-Sound immediate_words first.0 immediate-proper first.2 in
    let held : HoldsAdded (some first.0) (register_all (primitives op) comp.dict) =
      subst (λ o. HoldsAdded o (register_all (primitives op) comp.dict)) first.1
        (register_all-Holds (primitives op) words comp.dict g.holds) in
    let held' : HoldsAdded (some second.0) (register_all immediate_words held.0) =
      subst (λ o. HoldsAdded o (register_all immediate_words held.0)) second.1
        (register_all-Holds immediate_words first.0 held.0 held.2) in
    (
      second.0,
      held'.0,
      rw first.1 second.1,
      rw (held.1, held'.1),
      record { holds = held'.2; sound = second.2; cached = g.cached; literal = g.literal },
    )

-- The lookup of the registration's name in the words finds the registration's number.
finds : Registration → List DictEntry → Bool
finds reg words = elim (find_name reg.name words) [
  | none ↦ false
  | some entry ↦ entry.prim_id == reg.prim_id
]

finds_all : List Registration → List DictEntry → Bool
unfolding finds
finds_all [] words = true
finds_all (reg ∷ regs) words = finds reg words && finds_all regs words

abbrev Finds : List Registration → Option (List DictEntry) → Type 0
Finds regs none = Unit
Finds regs (some words) = finds_all regs words ≡ true

primitives-Finds :
    (op : ℕ → ℕ) (words : List DictEntry) → Finds (primitives op) (registered_words op words)
unfolding added finds_all finds find_name make_entry parse_type_sig parse_tokens split_tokens
    end_token parse_type concrete_type bytes_eq
primitives-Finds op words = refl

-- The dictionary finds the registration's name, as an entry with its number.
abbrev pub FoundIn : Dictionary → Registration → Type 0
FoundIn dict reg =
    (entry : DictEntry) × (dict_lookup dict reg.name ≡ some entry) × (entry.prim_id ≡ reg.prim_id)

finds-FoundIn :
    (words : List DictEntry) (dict : Dictionary) (reg : Registration)
    → Holds words dict
    → finds reg words ≡ true
    → FoundIn dict reg
unfolding finds
finds-FoundIn words dict reg h e =
    go (find_name reg.name words) (dict_lookup-eq words dict reg.name h) e
  where
    go :
        (o : Option DictEntry)
        → dict_lookup dict reg.name ≡ o
        → (elim o [ none ↦ false | some entry ↦ entry.prim_id == reg.prim_id ]) ≡ true
        → FoundIn dict reg
    go none found e = absurd (ground arith)
    go (some entry) found e = (entry, found, (==_iff entry.prim_id reg.prim_id).0 e)

finds_all-FoundIn :
    (regs : List Registration) (words : List DictEntry) (dict : Dictionary)
    → Holds words dict
    → finds_all regs words ≡ true
    → All (FoundIn dict) regs
unfolding finds_all
finds_all-FoundIn [] words dict h e = tt
finds_all-FoundIn (reg ∷ regs) words dict h e = (
  finds-FoundIn words dict reg h (ground arith),
  finds_all-FoundIn regs words dict h (ground arith),
)

-- After compiler_register_primitives on a compiler that is ready, which succeeds, the lookup by
-- name of each primitive finds a word with the primitive's number, also where an immediate word has
-- taken the name over.
pub compiler_register_primitives-found :
    (op : ℕ → ℕ) (words : List DictEntry) (comp : Compiler)
    → IsReady words comp
    → (comp' : Compiler) × (compiler_register_primitives op comp ≡ some comp')
      × All (FoundIn comp'.dict) (primitives op)
compiler_register_primitives-found op words comp g =
    let (words', dict, added_eq, result, ready) =
      compiler_register_primitives-IsReady op words comp g in
    (
      record comp { dict = dict },
      result,
      finds_all-FoundIn (primitives op) words' dict ready.holds
          (subst (Finds (primitives op)) added_eq (primitives-Finds op words)),
    )
