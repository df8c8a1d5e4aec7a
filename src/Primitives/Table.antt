-- ===== src/Primitives/Table.antt =====
-- src/primitives.c: the registrations, with the numbers of src/types.h.
use march.Prelude.{ℕ, Option, List, [], ◌∷◌}
use march.Dictionary.{Dictionary}
use march.Primitives.{Registration, reg_prim, register_all}
use march.Primitives.Texts.{
  sig_a_to_a_a, sig_a_to, sig_a_b_to_b_a, sig_a_b_to_a_b_a, sig_a_b_c_to_b_c_a, sig_a_to_a,
  sig_i64_i64_to_i64, sig_i64_i64_to_bool, sig_i64_to_i64, sig_bool_bool_to_bool, sig_bool_to_bool,
  sig_i64_to_bool, sig_ptr_to_i64, sig_i64_ptr_to, sig_to_a, sig_to, sig_a_b_to, sig_to_a_b,
  sig_i64_to, sig_to_i64, sig_i64_to_ptr, sig_ptr_ptr_i64_to_ptr, sig_array_to_i64, sig_str_to_i64,
  sig_array_to_array_mut, sig_array_i64_to_i64, sig_array_mut_i64_i64_to_array_mut,
  sig_array_mut_i64_to_array_mut, sig_array_mut_to_array_mut, sig_array_array_to_array,
  sig_i64_i64_i64_to_i64,
}

abbrev pub primitives : (ℕ → ℕ) → List Registration
primitives op =
    reg_prim op (100 ∷ 117 ∷ 112 ∷ []) 6 sig_a_to_a_a
    ∷ reg_prim op (100 ∷ 114 ∷ 111 ∷ 112 ∷ []) 7 sig_a_to
    ∷ reg_prim op (115 ∷ 119 ∷ 97 ∷ 112 ∷ []) 8 sig_a_b_to_b_a
    ∷ reg_prim op (111 ∷ 118 ∷ 101 ∷ 114 ∷ []) 9 sig_a_b_to_a_b_a
    ∷ reg_prim op (114 ∷ 111 ∷ 116 ∷ []) 10 sig_a_b_c_to_b_c_a
    ∷ reg_prim op (95 ∷ []) 46 sig_a_to_a
    ∷ reg_prim op (43 ∷ []) 1 sig_i64_i64_to_i64
    ∷ reg_prim op (45 ∷ []) 2 sig_i64_i64_to_i64
    ∷ reg_prim op (42 ∷ []) 3 sig_i64_i64_to_i64
    ∷ reg_prim op (47 ∷ []) 4 sig_i64_i64_to_i64
    ∷ reg_prim op (109 ∷ 111 ∷ 100 ∷ []) 5 sig_i64_i64_to_i64
    ∷ reg_prim op (61 ∷ []) 11 sig_i64_i64_to_bool
    ∷ reg_prim op (60 ∷ 62 ∷ []) 12 sig_i64_i64_to_bool
    ∷ reg_prim op (60 ∷ []) 13 sig_i64_i64_to_bool
    ∷ reg_prim op (62 ∷ []) 14 sig_i64_i64_to_bool
    ∷ reg_prim op (60 ∷ 61 ∷ []) 15 sig_i64_i64_to_bool
    ∷ reg_prim op (62 ∷ 61 ∷ []) 16 sig_i64_i64_to_bool
    ∷ reg_prim op (97 ∷ 110 ∷ 100 ∷ []) 17 sig_i64_i64_to_i64
    ∷ reg_prim op (111 ∷ 114 ∷ []) 18 sig_i64_i64_to_i64
    ∷ reg_prim op (120 ∷ 111 ∷ 114 ∷ []) 19 sig_i64_i64_to_i64
    ∷ reg_prim op (110 ∷ 111 ∷ 116 ∷ []) 20 sig_i64_to_i64
    ∷ reg_prim op (60 ∷ 60 ∷ []) 21 sig_i64_i64_to_i64
    ∷ reg_prim op (62 ∷ 62 ∷ []) 22 sig_i64_i64_to_i64
    ∷ reg_prim op (62 ∷ 62 ∷ 62 ∷ []) 23 sig_i64_i64_to_i64
    ∷ reg_prim op (108 ∷ 97 ∷ 110 ∷ 100 ∷ []) 24 sig_bool_bool_to_bool
    ∷ reg_prim op (108 ∷ 111 ∷ 114 ∷ []) 25 sig_bool_bool_to_bool
    ∷ reg_prim op (108 ∷ 110 ∷ 111 ∷ 116 ∷ []) 26 sig_bool_to_bool
    ∷ reg_prim op (48 ∷ 61 ∷ []) 27 sig_i64_to_bool
    ∷ reg_prim op (48 ∷ 62 ∷ []) 28 sig_i64_to_bool
    ∷ reg_prim op (48 ∷ 60 ∷ []) 29 sig_i64_to_bool
    ∷ reg_prim op (64 ∷ []) 30 sig_ptr_to_i64
    ∷ reg_prim op (33 ∷ []) 31 sig_i64_ptr_to
    ∷ reg_prim op (99 ∷ 64 ∷ []) 32 sig_ptr_to_i64
    ∷ reg_prim op (99 ∷ 33 ∷ []) 33 sig_i64_ptr_to
    ∷ reg_prim op (62 ∷ 114 ∷ []) 34 sig_a_to
    ∷ reg_prim op (114 ∷ 62 ∷ []) 35 sig_to_a
    ∷ reg_prim op (114 ∷ 64 ∷ []) 36 sig_to_a
    ∷ reg_prim op (114 ∷ 100 ∷ 114 ∷ 111 ∷ 112 ∷ []) 37 sig_to
    ∷ reg_prim op (50 ∷ 62 ∷ 114 ∷ []) 38 sig_a_b_to
    ∷ reg_prim op (50 ∷ 114 ∷ 62 ∷ []) 39 sig_to_a_b
    ∷ reg_prim op (98 ∷ 114 ∷ 97 ∷ 110 ∷ 99 ∷ 104 ∷ []) 40 sig_to
    ∷ reg_prim op (48 ∷ 98 ∷ 114 ∷ 97 ∷ 110 ∷ 99 ∷ 104 ∷ []) 41 sig_i64_to
    ∷ reg_prim op (105 ∷ 48 ∷ []) 43 sig_to_i64
    ∷ reg_prim op (101 ∷ 120 ∷ 101 ∷ 99 ∷ 117 ∷ 116 ∷ 101 ∷ []) 42 sig_a_to
    ∷ reg_prim op (97 ∷ 108 ∷ 108 ∷ 111 ∷ 99 ∷ []) 45 sig_i64_to_ptr
    ∷ reg_prim op (102 ∷ 114 ∷ 101 ∷ 101 ∷ []) 44 sig_i64_to
    ∷ reg_prim op (109 ∷ 101 ∷ 109 ∷ 99 ∷ 112 ∷ 121 ∷ []) 47 sig_ptr_ptr_i64_to_ptr
    ∷ reg_prim op
        (109 ∷ 97 ∷ 114 ∷ 99 ∷ 104 ∷ 46 ∷ 97 ∷ 114 ∷ 114 ∷ 97 ∷ 121 ∷ 46 ∷ 108 ∷ 101 ∷ 110 ∷ 103
          ∷ 116 ∷ 104 ∷ [])
        48 sig_array_to_i64
    ∷ reg_prim op (115 ∷ 116 ∷ 114 ∷ 45 ∷ 108 ∷ 101 ∷ 110 ∷ 103 ∷ 116 ∷ 104 ∷ []) 49 sig_str_to_i64
    ∷ reg_prim op (109 ∷ 117 ∷ 116 ∷ []) 50 sig_array_to_array_mut
    ∷ reg_prim op (109 ∷ 97 ∷ 114 ∷ 99 ∷ 104 ∷ 46 ∷ 97 ∷ 114 ∷ 114 ∷ 97 ∷ 121 ∷ 46 ∷ 97 ∷ 116 ∷ [])
        51 sig_array_i64_to_i64
    ∷ reg_prim op
        (109 ∷ 97 ∷ 114 ∷ 99 ∷ 104 ∷ 46 ∷ 97 ∷ 114 ∷ 114 ∷ 97 ∷ 121 ∷ 46 ∷ 109 ∷ 117 ∷ 116 ∷ 46
          ∷ 115 ∷ 101 ∷ 116 ∷ [])
        52 sig_array_mut_i64_i64_to_array_mut
    ∷ reg_prim op
        (109 ∷ 97 ∷ 114 ∷ 99 ∷ 104 ∷ 46 ∷ 97 ∷ 114 ∷ 114 ∷ 97 ∷ 121 ∷ 46 ∷ 109 ∷ 117 ∷ 116 ∷ 46
          ∷ 102 ∷ 105 ∷ 108 ∷ 108 ∷ [])
        53 sig_array_mut_i64_to_array_mut
    ∷ reg_prim op
        (109 ∷ 97 ∷ 114 ∷ 99 ∷ 104 ∷ 46 ∷ 97 ∷ 114 ∷ 114 ∷ 97 ∷ 121 ∷ 46 ∷ 109 ∷ 117 ∷ 116 ∷ 46
          ∷ 114 ∷ 101 ∷ 118 ∷ 101 ∷ 114 ∷ 115 ∷ 101 ∷ [])
        54 sig_array_mut_to_array_mut
    ∷ reg_prim op
        (109 ∷ 97 ∷ 114 ∷ 99 ∷ 104 ∷ 46 ∷ 97 ∷ 114 ∷ 114 ∷ 97 ∷ 121 ∷ 46 ∷ 99 ∷ 111 ∷ 110 ∷ 99 ∷ 97
          ∷ 116 ∷ [])
        55 sig_array_array_to_array
    ∷ reg_prim op (109 ∷ 97 ∷ 114 ∷ 99 ∷ 104 ∷ 46 ∷ 109 ∷ 97 ∷ 112 ∷ 46 ∷ 110 ∷ 101 ∷ 119 ∷ []) 56
        sig_to_i64
    ∷ reg_prim op (109 ∷ 97 ∷ 114 ∷ 99 ∷ 104 ∷ 46 ∷ 109 ∷ 97 ∷ 112 ∷ 46 ∷ 103 ∷ 101 ∷ 116 ∷ []) 57
        sig_i64_i64_to_i64
    ∷ reg_prim op (109 ∷ 97 ∷ 114 ∷ 99 ∷ 104 ∷ 46 ∷ 109 ∷ 97 ∷ 112 ∷ 46 ∷ 115 ∷ 101 ∷ 116 ∷ []) 58
        sig_i64_i64_i64_to_i64
    ∷ reg_prim op
        (109 ∷ 97 ∷ 114 ∷ 99 ∷ 104 ∷ 46 ∷ 109 ∷ 97 ∷ 112 ∷ 46 ∷ 114 ∷ 101 ∷ 109 ∷ 111 ∷ 118 ∷ 101
          ∷ [])
        59 sig_i64_i64_to_i64
    ∷ reg_prim op
        (109 ∷ 97 ∷ 114 ∷ 99 ∷ 104 ∷ 46 ∷ 109 ∷ 97 ∷ 112 ∷ 46 ∷ 115 ∷ 105 ∷ 122 ∷ 101 ∷ []) 60
        sig_i64_to_i64
    ∷ reg_prim op
        (109 ∷ 97 ∷ 114 ∷ 99 ∷ 104 ∷ 46 ∷ 109 ∷ 97 ∷ 112 ∷ 46 ∷ 102 ∷ 114 ∷ 101 ∷ 101 ∷ []) 61
        sig_i64_to
    ∷ []

unfoldable pub register_primitives : (ℕ → ℕ) → Dictionary → Option Dictionary
unfolding register_all
register_primitives op dict = register_all (primitives op) dict
