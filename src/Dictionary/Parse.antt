-- ===== src/Dictionary/Parse.antt =====
-- src/dictionary.c: the names of the types and the type signatures.
use march.Prelude.{
  ℕ, zero, suc, ◌+◌, ◌-◌, ◌<◌, ◌≤◌, ◌≡◌, refl, true, false, Bool, inl, inr, ◌&&◌, ◌||◌, List, [],
  ◌∷◌, ◌++◌, Option, none, some, arith, ltb, leb, ◌==◌, ==_iff, Bool-cases, if◌then◌else◌, bytes_eq,
  length, take, reverse_onto,
}
use march.Types.{
  type_unknown, type_i64, type_u64, type_f64, type_ptr, type_bool, type_str, type_str_mut,
  type_array, type_array_mut, type_any, type_var_a, type_var_z, is_type_var, max_type_sig,
}
use march.Dictionary.{TypeSig}

abbrev name_i64 : List ℕ
name_i64 = 105 ∷ 54 ∷ 52 ∷ []

abbrev name_u64 : List ℕ
name_u64 = 117 ∷ 54 ∷ 52 ∷ []

abbrev name_f64 : List ℕ
name_f64 = 102 ∷ 54 ∷ 52 ∷ []

abbrev name_ptr : List ℕ
name_ptr = 112 ∷ 116 ∷ 114 ∷ []

abbrev name_bool : List ℕ
name_bool = 98 ∷ 111 ∷ 111 ∷ 108 ∷ []

abbrev name_str : List ℕ
name_str = 115 ∷ 116 ∷ 114 ∷ []

abbrev name_array : List ℕ
name_array = 97 ∷ 114 ∷ 114 ∷ 97 ∷ 121 ∷ []

abbrev name_any : List ℕ
name_any = 97 ∷ 110 ∷ 121 ∷ []

-- The names of more than one character.
unfoldable pub concrete_type : List ℕ → ℕ
concrete_type str =
    if bytes_eq str name_i64
    then type_i64
    else if bytes_eq str name_u64
    then type_u64
    else if bytes_eq str name_f64
    then type_f64
    else if bytes_eq str name_ptr
    then type_ptr
    else if bytes_eq str name_bool
    then type_bool
    else if bytes_eq str name_str
    then type_str
    else if bytes_eq str (name_str ++ 33 ∷ [])
    then type_str_mut
    else if bytes_eq str name_array
    then type_array
    else if bytes_eq str (name_array ++ 33 ∷ [])
    then type_array_mut
    else if bytes_eq str name_any
    then type_any
    else type_unknown

unfoldable pub parse_type : List ℕ → ℕ
unfolding concrete_type
parse_type [] = concrete_type []
parse_type (c ∷ []) =
    if leb 97 c && leb c 122 then type_var_a + (c - 97) else concrete_type (c ∷ [])
parse_type (c ∷ d ∷ str) = concrete_type (c ∷ d ∷ str)

-- The names that the `switch` returns; what it does not know is "???".
pub type_to_string : ℕ → List ℕ
type_to_string type =
    if is_type_var type
    then (97 + (type - type_var_a)) ∷ []
    else if type == type_i64
    then name_i64
    else if type == type_u64
    then name_u64
    else if type == type_f64
    then name_f64
    else if type == type_ptr
    then name_ptr
    else if type == type_bool
    then name_bool
    else if type == type_str
    then name_str
    else if type == type_str_mut
    then name_str ++ 33 ∷ []
    else if type == type_array
    then name_array
    else if type == type_array_mut
    then name_array ++ 33 ∷ []
    else if type == type_any
    then name_any
    else 63 ∷ 63 ∷ 63 ∷ []

-- `strtok` by spaces and tabs: the token read so far, backwards, and the rest.
unfoldable pub end_token : List ℕ → List (List ℕ) → List (List ℕ)
end_token [] tokens = tokens
end_token (c ∷ token) tokens = reverse_onto (c ∷ token) [] ∷ tokens

unfoldable pub split_tokens : List ℕ → List ℕ → List (List ℕ)
unfolding end_token
split_tokens token [] = end_token token []
split_tokens token (c ∷ str) =
    let rest = split_tokens [] str in
    let more = split_tokens (c ∷ token) str in
    if c == 32 || c == 9 then end_token token rest else more

-- "->", or the arrow U+2192 in UTF-8.
abbrev is_arrow : List ℕ → Bool
is_arrow token = bytes_eq token (45 ∷ 62 ∷ []) || bytes_eq token (226 ∷ 134 ∷ 146 ∷ [])

abbrev add_limited : List ℕ → ℕ → List ℕ
add_limited types type = if ltb (length types) 8 then types ++ type ∷ [] else types

unfoldable pub parse_tokens : Bool → TypeSig → List (List ℕ) → Option TypeSig
unfolding parse_type
parse_tokens reading_outputs sig [] = some sig
parse_tokens reading_outputs sig (token ∷ tokens) =
    let outputs = parse_tokens true sig tokens in
    let type = parse_type token in
    let next_output =
      parse_tokens true (record sig { outputs = add_limited sig.outputs type }) tokens in
    let next_input =
      parse_tokens false (record sig { inputs = add_limited sig.inputs type }) tokens in
    if is_arrow token
    then outputs
    else if type == type_unknown
    then none
    else if reading_outputs
    then next_output
    else next_input

-- The buffer holds 255 bytes of the string. `none` is the result false; the registrations, which do
-- not look at it, have no string of this kind.
unfoldable pub parse_type_sig : List ℕ → Option TypeSig
unfolding split_tokens parse_tokens
parse_type_sig str =
    parse_tokens false (record { inputs = []; outputs = [] })
      (split_tokens [] (take (max_type_sig - 1) str))

reads_back : ℕ → Bool
reads_back type = parse_type (type_to_string type) == type

all_below : ℕ → Bool
unfolding reads_back
all_below zero = true
all_below (suc n) = reads_back n && all_below n

all_below-reads_back : (n type : ℕ) → all_below n ≡ true → type < n → reads_back type ≡ true
unfolding all_below
all_below-reads_back zero type h below = absurd (omega arith)
all_below-reads_back (suc n) type h below = elim (Bool-cases (type == n)) [
  | inl last ↦ rw ((==_iff type n).0 last) (ground arith)
  | inr other ↦ all_below-reads_back n type (ground arith) (ground arith)
]

all_37 : all_below 37 ≡ true
unfolding all_below reads_back parse_type type_to_string concrete_type bytes_eq
all_37 = refl

-- `parse_type` reads back the name of every type. The name of TYPE_UNKNOWN is one that it does not
-- know, which is TYPE_UNKNOWN again.
pub parse_type-type_to_string :
    (type : ℕ) → type ≤ type_var_z → parse_type (type_to_string type) ≡ type
unfolding reads_back
parse_type-type_to_string type last =
    (==_iff (parse_type (type_to_string type)) type).0
      (all_below-reads_back 37 type all_37 (omega arith))
