-- ===== src/Cells/Coding.antt =====
-- src/cells.c: what the encodings keep, and what a cell's tag says.
use march.Prelude.{
  ℕ, ◌+◌, ◌-◌, ◌*◌, ◌/◌, ◌%◌, ◌^◌, ◌≤◌, ◌<◌, bit_and, bit_or, ◌≡◌, ◌↔◌, ◌⊎◌, Bool, true, false,
  arith, ◌==◌, if◌then◌else◌,
}
use march.Prelude.Bits.{bit_and_step, bit_or_step, bit_or-zero, bit_and-zero, bit_and-mask}
use march.Cells.{
  encode_xt, encode_lit, encode_lst, encode_lnt, decode_tag, decode_lit, decode_xt, decode_lst,
  decode_lnt, is_lit, is_xt, is_lst, is_lnt, tag_xt, tag_lit, tag_lst, tag_lnt,
}

-- The integers that 62 bits hold, -2 ^ 61 up to 2 ^ 61 - 1, as 64-bit patterns.
abbrev pub FitsLit : ℕ → Type 0
FitsLit value = (value < 2 ^ 61) ⊎ (2 ^ 64 - 2 ^ 61 ≤ value)

bit_or-one : (x : ℕ) → bit_or (x * 4) 1 ≡ x * 4 + 1
bit_or-one x = omega (arith, bit_or_step (x * 4) 1, bit_or-zero (x * 4 / 2))

pub encode_lit_lem : (value : ℕ) → encode_lit value ≡ value % 2 ^ 62 * 4 + 1
unfolding encode_lit
encode_lit_lem value =
    let e : value * 4 % 2 ^ 64 ≡ value % 2 ^ 62 * 4 = omega arith in
    ground (arith, e, bit_or-one (value % 2 ^ 62))

pub encode_lst_lem : (v : ℕ) → encode_lst v ≡ v % 2 ^ 61 * 8 + 2
unfolding encode_lst
encode_lst_lem v =
    let e : v * 8 % 2 ^ 64 ≡ v % 2 ^ 61 * 8 = omega arith in
    let x = v % 2 ^ 61 in
    ground (arith, e, bit_or_step (x * 8) 2, bit_or_step (x * 8 / 2) 1, bit_or-zero (x * 8 / 2 / 2))

pub encode_lnt_lem : (v : ℕ) → encode_lnt v ≡ v % 2 ^ 61 * 8 + 6
unfolding encode_lnt
encode_lnt_lem v =
    let e : v * 8 % 2 ^ 64 ≡ v % 2 ^ 61 * 8 = omega arith in
    let x = v % 2 ^ 61 in
    ground (
      arith,
      e,
      bit_or_step (x * 8) 6,
      bit_or_step (x * 8 / 2) 3,
      bit_or_step (x * 8 / 2 / 2) 1,
      bit_or-zero (x * 8 / 2 / 2 / 2),
    )

high_bits : (a : ℕ) → bit_and a (2 ^ 64 - 4) ≡ a / 4 % 2 ^ 62 * 4
high_bits a = omega (
  arith,
  bit_and_step a (2 ^ 64 - 4),
  bit_and_step (a / 2) (2 ^ 63 - 2),
  bit_and-mask 62 (a / 2 / 2),
)

pub encode_xt_lem : (addr : ℕ) → encode_xt addr ≡ addr / 4 % 2 ^ 62 * 4
unfolding encode_xt
encode_xt_lem addr = omega (arith, bit_or-zero (bit_and addr (2 ^ 64 - 4)), high_bits addr)

-- A literal survives its cell exactly when it fits 62 bits as a signed number.
pub decode_lit-encode_lit :
    (value : ℕ) → value < 2 ^ 64 → (decode_lit (encode_lit value) ≡ value) ↔ FitsLit value
unfolding decode_lit
decode_lit-encode_lit value h = ground (arith, encode_lit_lem value)

-- A symbol's id, and a count of literals, survives its cell exactly when it fits 61 bits.
pub decode_lst-encode_lst :
    (v : ℕ)
    → v < 2 ^ 64
    → (decode_lst (encode_lst v) ≡ v ↔ v < 2 ^ 61) × (decode_lnt (encode_lnt v) ≡ v ↔ v < 2 ^ 61)
unfolding decode_lst decode_lnt
decode_lst-encode_lst v h = ground (arith, encode_lst_lem v, encode_lnt_lem v)

-- An address survives its cell exactly when it is a multiple of 4.
pub decode_xt-encode_xt :
    (addr : ℕ) → addr < 2 ^ 64 → (decode_xt (encode_xt addr) ≡ addr) ↔ (addr % 4 ≡ 0)
unfolding decode_xt
decode_xt-encode_xt addr h = ground (arith, encode_xt_lem addr, high_bits (encode_xt addr))

-- The kind of a cell by its three lowest digits.
pub data Kind : Type 0 where
  xt lit lst lnt reserved : Kind

pub kind : ℕ → Kind
kind cell =
    if cell % 4 == 0
    then xt
    else if cell % 4 == 1
    then lit
    else if cell % 8 == 2
    then lst
    else if cell % 8 == 6
    then lnt
    else reserved

abbrev pub is_kind : Kind → Kind → Bool
is_kind xt xt = true
is_kind lit lit = true
is_kind lst lst = true
is_kind lnt lnt = true
is_kind reserved reserved = true
is_kind _ _ = false

abbrev pub kind_tag : Kind → ℕ
kind_tag xt = tag_xt
kind_tag lit = tag_lit
kind_tag lst = tag_lst
kind_tag lnt = tag_lnt
kind_tag reserved = tag_xt

bit_two : (cell : ℕ) → bit_and cell 4 ≡ cell / 4 % 2 * 4
bit_two cell = omega (
  arith,
  bit_and_step cell 4,
  bit_and_step (cell / 2) 2,
  bit_and_step (cell / 2 / 2) 1,
  bit_and-zero (cell / 2 / 2 / 2),
)

-- The tests and `decode_tag` all read one kind, so at most one test passes; a reserved cell passes
-- none, and `decode_tag` gives it the tag of an XT.
pub tests-kind :
    (cell : ℕ)
    → (is_xt cell ≡ is_kind (kind cell) xt)
      × (is_lit cell ≡ is_kind (kind cell) lit)
      × (is_lst cell ≡ is_kind (kind cell) lst)
      × (is_lnt cell ≡ is_kind (kind cell) lnt)
      × (decode_tag cell ≡ kind_tag (kind cell))
unfolding is_xt is_lit is_lst is_lnt decode_tag kind
tests-kind cell = ground (arith, bit_and-mask 2 cell, bit_and-mask 3 cell, bit_two cell)

-- Each encoding makes a cell of its kind.
pub encode-kind :
    (v : ℕ)
    → (kind (encode_xt v) ≡ xt)
      × (kind (encode_lit v) ≡ lit)
      × (kind (encode_lst v) ≡ lst)
      × (kind (encode_lnt v) ≡ lnt)
unfolding kind
encode-kind v =
    ground (arith, encode_xt_lem v, encode_lit_lem v, encode_lst_lem v, encode_lnt_lem v)
