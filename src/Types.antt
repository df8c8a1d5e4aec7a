-- ===== src/Types.antt =====
-- src/types.h: the type identifiers and the sizes. `type_id_t` is an enum that the code compares
-- and subtracts, so a type is its number; the variables a to z are the 26 numbers from TYPE_VAR_A.
use march.Prelude.{ℕ, Bool, ◌&&◌, leb}

abbrev pub type_unknown : ℕ
type_unknown = 0

abbrev pub type_i64 : ℕ
type_i64 = 1

abbrev pub type_u64 : ℕ
type_u64 = 2

abbrev pub type_f64 : ℕ
type_f64 = 3

abbrev pub type_ptr : ℕ
type_ptr = 4

abbrev pub type_bool : ℕ
type_bool = 5

abbrev pub type_str : ℕ
type_str = 6

abbrev pub type_str_mut : ℕ
type_str_mut = 7

abbrev pub type_array : ℕ
type_array = 8

abbrev pub type_array_mut : ℕ
type_array_mut = 9

abbrev pub type_any : ℕ
type_any = 10

abbrev pub type_var_a : ℕ
type_var_a = 11

abbrev pub type_var_z : ℕ
type_var_z = 36

-- The test for a type variable that src/dictionary.c and src/compiler.c repeat.
abbrev pub is_type_var : ℕ → Bool
is_type_var type = leb type_var_a type && leb type type_var_z

abbrev pub max_type_stack : ℕ
max_type_stack = 256

abbrev pub max_type_sig : ℕ
max_type_sig = 256

abbrev pub max_slots : ℕ
max_slots = 256
