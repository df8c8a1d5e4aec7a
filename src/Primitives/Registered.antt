-- ===== src/Primitives/Registered.antt =====
-- src/primitives.c: what a table of registrations leaves in the dictionary.
use march.Prelude.{◌≡◌, refl, Option, none, some, List, [], ◌∷◌, ◌>>=◌}
use march.Dictionary.{TypeSig, DictEntry, Dictionary, dict_add, make_entry}
use march.Dictionary.Parse.{parse_type_sig}
use march.Dictionary.Chains.{Holds, add-Holds}
use march.Primitives.{Registration, definition_of, register, register_all}

-- The words with the registrations in front, the last first; `none` if a text is not a type.
unfoldable pub added : List Registration → List DictEntry → Option (List DictEntry)
added [] words = some words
added (reg ∷ regs) words = parse_type_sig reg.type_str >>= λ sig.
    added regs (make_entry reg.name (definition_of reg sig) ∷ words)

-- A dictionary that holds the words then holds these.
abbrev pub HoldsAdded : Option (List DictEntry) → Option Dictionary → Type 0
HoldsAdded none dict = dict ≡ none
HoldsAdded (some words) dict = (d : Dictionary) × (dict ≡ some d) × Holds words d

pub register_all-Holds :
    (regs : List Registration) (words : List DictEntry) (dict : Dictionary)
    → Holds words dict
    → HoldsAdded (added regs words) (register_all regs dict)
unfolding added register_all register
register_all-Holds [] words dict h = (dict, refl, h)
register_all-Holds (reg ∷ regs) words dict h = go (parse_type_sig reg.type_str) λ sig.
    register_all-Holds regs (make_entry reg.name (definition_of reg sig) ∷ words)
      (dict_add dict reg.name (definition_of reg sig))
      (add-Holds words dict reg.name (definition_of reg sig) h)
  where
    go :
        (o : Option TypeSig)
        → ((sig : TypeSig)
            → HoldsAdded
                (added regs (make_entry reg.name (definition_of reg sig) ∷ words))
                (register_all regs (dict_add dict reg.name (definition_of reg sig))))
        → HoldsAdded
            (o >>= λ sig. added regs (make_entry reg.name (definition_of reg sig) ∷ words))
            ((o >>= λ sig. some (dict_add dict reg.name (definition_of reg sig))) >>= λ next.
              register_all regs next)
    go none next = refl
    go (some sig) next = next sig
