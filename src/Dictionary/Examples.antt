-- ===== src/Dictionary/Examples.antt =====
-- src/dictionary.c at concrete inputs: a dictionary with "+" on integers and "+" on floats.
use march.Prelude.{
  ℕ, ◌+◌, ◌-◌, ◌≤◌, ◌≡◌, refl, true, false, none, some, List, [], ◌∷◌, arith, length, drop,
}
use march.Types.{type_i64, type_f64, type_var_a}
use march.Dictionary.{
  TypeSig, DictEntry, Dictionary, Definition, dict_create, dict_add, make_entry, dict_lookup,
  dict_lookup_typed, match_score, match_input, match_loop,
}
use march.Dictionary.Chains.{Holds, create-Holds, add-Holds, IsNewest, dict_lookup-IsNewest}
use march.Dictionary.Best.{Chosen, dict_lookup_typed-Chosen}
use march.Dictionary.Score.{Assignment, AllFit, match_score-AllFit}
use march.Dictionary.Parse.{parse_type, type_to_string, parse_type-type_to_string}

abbrev plus : List ℕ
plus = 43 ∷ []

abbrev binary : ℕ → ℕ → Definition
binary type id = record {
  addr = 0x1000 + id;
  cid = none;
  prim_id = id;
  sig = some (record { inputs = type ∷ type ∷ []; outputs = type ∷ [] });
  is_primitive = true;
  is_immediate = false;
  handler = none;
  word_def = none;
}

abbrev ints : Dictionary
ints = dict_add dict_create plus (binary type_i64 1)

abbrev both : Dictionary
both = dict_add ints plus (binary type_f64 2)

abbrev words : List DictEntry
words = make_entry plus (binary type_f64 2) ∷ make_entry plus (binary type_i64 1) ∷ []

both-Holds : Holds words both
both-Holds =
    add-Holds (make_entry plus (binary type_i64 1) ∷ []) ints plus (binary type_f64 2)
      (add-Holds [] dict_create plus (binary type_i64 1) create-Holds)

add-Holds_example :
    Holds (make_entry plus (binary type_i64 1) ∷ words) (dict_add both plus (binary type_i64 1))
add-Holds_example = add-Holds words both plus (binary type_i64 1) both-Holds

dict_lookup-IsNewest_example : IsNewest plus words (dict_lookup both plus)
dict_lookup-IsNewest_example = dict_lookup-IsNewest words both plus both-Holds

dict_lookup_typed-Chosen_example :
    Chosen plus
      (type_i64 ∷ type_i64 ∷ [])
      words
      (dict_lookup_typed both plus (type_i64 ∷ type_i64 ∷ []))
dict_lookup_typed-Chosen_example =
    dict_lookup_typed-Chosen words both plus (type_i64 ∷ type_i64 ∷ []) both-Holds

-- "a i64 -> a" on a stack of a float, a float and an integer.
abbrev sig : TypeSig
sig = record { inputs = type_var_a ∷ type_i64 ∷ []; outputs = type_var_a ∷ [] }

abbrev types : List ℕ
types = type_f64 ∷ type_f64 ∷ type_i64 ∷ []

sig-score : match_score sig types ≡ some 180
unfolding match_score match_loop match_input
sig-score = refl

match_score-AllFit_example :
    (length sig.inputs ≤ length types)
    × (σ : Assignment) × AllFit σ sig.inputs (drop (length types - length sig.inputs) types)
match_score-AllFit_example = match_score-AllFit sig types 180 (omega arith) sig-score

parse_type-type_to_string_example : parse_type (type_to_string 9) ≡ 9
parse_type-type_to_string_example = parse_type-type_to_string 9 (omega arith)
