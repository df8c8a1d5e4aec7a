-- ===== src/Cells/Examples.antt =====
-- src/cells.c at concrete inputs.
use march.Prelude.{ℕ, ◌-◌, ◌*◌, ◌≤◌, ◌<◌, ◌%◌, ◌^◌, ◌≡◌, ◌↔◌, [], ◌∷◌, ◌++◌, arith, length}
use march.Cells.{
  cell_buffer_create, cell_buffer_append, encode_lit, decode_lit, encode_xt, decode_xt, encode_lst,
  decode_lst, encode_lnt, decode_lnt, is_xt, is_lit, is_lst, is_lnt, decode_tag,
}
use march.Cells.Coding.{
  FitsLit, decode_lit-encode_lit, decode_lst-encode_lst, decode_xt-encode_xt, xt, lit, lst, lnt,
  kind, is_kind, kind_tag, tests-kind,
}
use march.Cells.Buffer.{IsValid, create-IsValid, append-IsValid}

-- -5 as a 64-bit pattern.
abbrev minus_five : ℕ
minus_five = 2 ^ 64 - 5

decode_lit-encode_lit_example :
    (decode_lit (encode_lit minus_five) ≡ minus_five) ↔ FitsLit minus_five
decode_lit-encode_lit_example = decode_lit-encode_lit minus_five (omega arith)

decode_lst-encode_lst_example :
    (decode_lst (encode_lst 7) ≡ 7 ↔ 7 < 2 ^ 61) × (decode_lnt (encode_lnt 7) ≡ 7 ↔ 7 < 2 ^ 61)
decode_lst-encode_lst_example = decode_lst-encode_lst 7 (omega arith)

decode_xt-encode_xt_example : (decode_xt (encode_xt 0x1000) ≡ 0x1000) ↔ (0x1000 % 4 ≡ 0)
decode_xt-encode_xt_example = decode_xt-encode_xt 0x1000 (omega arith)

tests-kind_example :
    (is_xt 3 ≡ is_kind (kind 3) xt)
    × (is_lit 3 ≡ is_kind (kind 3) lit)
    × (is_lst 3 ≡ is_kind (kind 3) lst)
    × (is_lnt 3 ≡ is_kind (kind 3) lnt)
    × (decode_tag 3 ≡ kind_tag (kind 3))
tests-kind_example = tests-kind 3

append-IsValid_example :
    IsValid (cell_buffer_append cell_buffer_create 9)
    × (length (cell_buffer_append cell_buffer_create 9).cells * 8
        ≤ (cell_buffer_append cell_buffer_create 9).allocated)
    × ((cell_buffer_append cell_buffer_create 9).cells ≡ cell_buffer_create.cells ++ 9 ∷ [])
unfolding cell_buffer_create
append-IsValid_example = append-IsValid cell_buffer_create 9 create-IsValid (omega arith)
