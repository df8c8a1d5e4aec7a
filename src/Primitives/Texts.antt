-- ===== src/Primitives/Texts.antt =====
-- src/primitives.c: the texts of the primitives' types.
use march.Prelude.{ℕ, List, [], ◌∷◌}

-- "a -> a a"
abbrev pub sig_a_to_a_a : List ℕ
sig_a_to_a_a = 97 ∷ 32 ∷ 45 ∷ 62 ∷ 32 ∷ 97 ∷ 32 ∷ 97 ∷ []

-- "a ->"
abbrev pub sig_a_to : List ℕ
sig_a_to = 97 ∷ 32 ∷ 45 ∷ 62 ∷ []

-- "a b -> b a"
abbrev pub sig_a_b_to_b_a : List ℕ
sig_a_b_to_b_a = 97 ∷ 32 ∷ 98 ∷ 32 ∷ 45 ∷ 62 ∷ 32 ∷ 98 ∷ 32 ∷ 97 ∷ []

-- "a b -> a b a"
abbrev pub sig_a_b_to_a_b_a : List ℕ
sig_a_b_to_a_b_a = 97 ∷ 32 ∷ 98 ∷ 32 ∷ 45 ∷ 62 ∷ 32 ∷ 97 ∷ 32 ∷ 98 ∷ 32 ∷ 97 ∷ []

-- "a b c -> b c a"
abbrev pub sig_a_b_c_to_b_c_a : List ℕ
sig_a_b_c_to_b_c_a = 97 ∷ 32 ∷ 98 ∷ 32 ∷ 99 ∷ 32 ∷ 45 ∷ 62 ∷ 32 ∷ 98 ∷ 32 ∷ 99 ∷ 32 ∷ 97 ∷ []

-- "a -> a"
abbrev pub sig_a_to_a : List ℕ
sig_a_to_a = 97 ∷ 32 ∷ 45 ∷ 62 ∷ 32 ∷ 97 ∷ []

-- "i64 i64 -> i64"
abbrev pub sig_i64_i64_to_i64 : List ℕ
sig_i64_i64_to_i64 = 105 ∷ 54 ∷ 52 ∷ 32 ∷ 105 ∷ 54 ∷ 52 ∷ 32 ∷ 45 ∷ 62 ∷ 32 ∷ 105 ∷ 54 ∷ 52 ∷ []

-- "i64 i64 -> bool"
abbrev pub sig_i64_i64_to_bool : List ℕ
sig_i64_i64_to_bool =
    105 ∷ 54 ∷ 52 ∷ 32 ∷ 105 ∷ 54 ∷ 52 ∷ 32 ∷ 45 ∷ 62 ∷ 32 ∷ 98 ∷ 111 ∷ 111 ∷ 108 ∷ []

-- "i64 -> i64"
abbrev pub sig_i64_to_i64 : List ℕ
sig_i64_to_i64 = 105 ∷ 54 ∷ 52 ∷ 32 ∷ 45 ∷ 62 ∷ 32 ∷ 105 ∷ 54 ∷ 52 ∷ []

-- "bool bool -> bool"
abbrev pub sig_bool_bool_to_bool : List ℕ
sig_bool_bool_to_bool =
    98 ∷ 111 ∷ 111 ∷ 108 ∷ 32 ∷ 98 ∷ 111 ∷ 111 ∷ 108 ∷ 32 ∷ 45 ∷ 62 ∷ 32 ∷ 98 ∷ 111 ∷ 111 ∷ 108 ∷ []

-- "bool -> bool"
abbrev pub sig_bool_to_bool : List ℕ
sig_bool_to_bool = 98 ∷ 111 ∷ 111 ∷ 108 ∷ 32 ∷ 45 ∷ 62 ∷ 32 ∷ 98 ∷ 111 ∷ 111 ∷ 108 ∷ []

-- "i64 -> bool"
abbrev pub sig_i64_to_bool : List ℕ
sig_i64_to_bool = 105 ∷ 54 ∷ 52 ∷ 32 ∷ 45 ∷ 62 ∷ 32 ∷ 98 ∷ 111 ∷ 111 ∷ 108 ∷ []

-- "ptr -> i64"
abbrev pub sig_ptr_to_i64 : List ℕ
sig_ptr_to_i64 = 112 ∷ 116 ∷ 114 ∷ 32 ∷ 45 ∷ 62 ∷ 32 ∷ 105 ∷ 54 ∷ 52 ∷ []

-- "i64 ptr ->"
abbrev pub sig_i64_ptr_to : List ℕ
sig_i64_ptr_to = 105 ∷ 54 ∷ 52 ∷ 32 ∷ 112 ∷ 116 ∷ 114 ∷ 32 ∷ 45 ∷ 62 ∷ []

-- "-> a"
abbrev pub sig_to_a : List ℕ
sig_to_a = 45 ∷ 62 ∷ 32 ∷ 97 ∷ []

-- "->"
abbrev pub sig_to : List ℕ
sig_to = 45 ∷ 62 ∷ []

-- "a b ->"
abbrev pub sig_a_b_to : List ℕ
sig_a_b_to = 97 ∷ 32 ∷ 98 ∷ 32 ∷ 45 ∷ 62 ∷ []

-- "-> a b"
abbrev pub sig_to_a_b : List ℕ
sig_to_a_b = 45 ∷ 62 ∷ 32 ∷ 97 ∷ 32 ∷ 98 ∷ []

-- "i64 ->"
abbrev pub sig_i64_to : List ℕ
sig_i64_to = 105 ∷ 54 ∷ 52 ∷ 32 ∷ 45 ∷ 62 ∷ []

-- "-> i64"
abbrev pub sig_to_i64 : List ℕ
sig_to_i64 = 45 ∷ 62 ∷ 32 ∷ 105 ∷ 54 ∷ 52 ∷ []

-- "i64 -> ptr"
abbrev pub sig_i64_to_ptr : List ℕ
sig_i64_to_ptr = 105 ∷ 54 ∷ 52 ∷ 32 ∷ 45 ∷ 62 ∷ 32 ∷ 112 ∷ 116 ∷ 114 ∷ []

-- "ptr ptr i64 -> ptr"
abbrev pub sig_ptr_ptr_i64_to_ptr : List ℕ
sig_ptr_ptr_i64_to_ptr =
    112 ∷ 116 ∷ 114 ∷ 32 ∷ 112 ∷ 116 ∷ 114 ∷ 32 ∷ 105 ∷ 54 ∷ 52 ∷ 32 ∷ 45 ∷ 62 ∷ 32 ∷ 112 ∷ 116
    ∷ 114 ∷ []

-- "array -> i64"
abbrev pub sig_array_to_i64 : List ℕ
sig_array_to_i64 = 97 ∷ 114 ∷ 114 ∷ 97 ∷ 121 ∷ 32 ∷ 45 ∷ 62 ∷ 32 ∷ 105 ∷ 54 ∷ 52 ∷ []

-- "str -> i64"
abbrev pub sig_str_to_i64 : List ℕ
sig_str_to_i64 = 115 ∷ 116 ∷ 114 ∷ 32 ∷ 45 ∷ 62 ∷ 32 ∷ 105 ∷ 54 ∷ 52 ∷ []

-- "array -> array!"
abbrev pub sig_array_to_array_mut : List ℕ
sig_array_to_array_mut =
    97 ∷ 114 ∷ 114 ∷ 97 ∷ 121 ∷ 32 ∷ 45 ∷ 62 ∷ 32 ∷ 97 ∷ 114 ∷ 114 ∷ 97 ∷ 121 ∷ 33 ∷ []

-- "array i64 -> i64"
abbrev pub sig_array_i64_to_i64 : List ℕ
sig_array_i64_to_i64 =
    97 ∷ 114 ∷ 114 ∷ 97 ∷ 121 ∷ 32 ∷ 105 ∷ 54 ∷ 52 ∷ 32 ∷ 45 ∷ 62 ∷ 32 ∷ 105 ∷ 54 ∷ 52 ∷ []

-- "array! i64 i64 -> array!"
abbrev pub sig_array_mut_i64_i64_to_array_mut : List ℕ
sig_array_mut_i64_i64_to_array_mut =
    97 ∷ 114 ∷ 114 ∷ 97 ∷ 121 ∷ 33 ∷ 32 ∷ 105 ∷ 54 ∷ 52 ∷ 32 ∷ 105 ∷ 54 ∷ 52 ∷ 32 ∷ 45 ∷ 62 ∷ 32
    ∷ 97 ∷ 114 ∷ 114 ∷ 97 ∷ 121 ∷ 33 ∷ []

-- "array! i64 -> array!"
abbrev pub sig_array_mut_i64_to_array_mut : List ℕ
sig_array_mut_i64_to_array_mut =
    97 ∷ 114 ∷ 114 ∷ 97 ∷ 121 ∷ 33 ∷ 32 ∷ 105 ∷ 54 ∷ 52 ∷ 32 ∷ 45 ∷ 62 ∷ 32 ∷ 97 ∷ 114 ∷ 114 ∷ 97
    ∷ 121 ∷ 33 ∷ []

-- "array! -> array!"
abbrev pub sig_array_mut_to_array_mut : List ℕ
sig_array_mut_to_array_mut =
    97 ∷ 114 ∷ 114 ∷ 97 ∷ 121 ∷ 33 ∷ 32 ∷ 45 ∷ 62 ∷ 32 ∷ 97 ∷ 114 ∷ 114 ∷ 97 ∷ 121 ∷ 33 ∷ []

-- "array array -> array"
abbrev pub sig_array_array_to_array : List ℕ
sig_array_array_to_array =
    97 ∷ 114 ∷ 114 ∷ 97 ∷ 121 ∷ 32 ∷ 97 ∷ 114 ∷ 114 ∷ 97 ∷ 121 ∷ 32 ∷ 45 ∷ 62 ∷ 32 ∷ 97 ∷ 114 ∷ 114
    ∷ 97 ∷ 121 ∷ []

-- "i64 i64 i64 -> i64"
abbrev pub sig_i64_i64_i64_to_i64 : List ℕ
sig_i64_i64_i64_to_i64 =
    105 ∷ 54 ∷ 52 ∷ 32 ∷ 105 ∷ 54 ∷ 52 ∷ 32 ∷ 105 ∷ 54 ∷ 52 ∷ 32 ∷ 45 ∷ 62 ∷ 32 ∷ 105 ∷ 54 ∷ 52 ∷ []
