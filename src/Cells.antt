-- ===== src/Cells.antt =====
-- src/cells.h and src/cells.c: the tagged 64-bit cells of compiled code, and the buffer that they
-- are appended to. A cell and an `int64_t` are their bit patterns, below 2 ^ 64; an address is the
-- number that a pointer holds. Allocation is taken to succeed.
pub mod Coding
pub mod Buffer
mod Examples
use march.Prelude.{
  ℕ, ◌+◌, ◌-◌, ◌*◌, ◌/◌, ◌%◌, ◌^◌, bit_and, bit_or, Bool, List, [], ◌∷◌, ◌++◌, leb, ltb, ◌==◌,
  if◌then◌else◌, length,
}

-- src/types.h: TAG_XT, TAG_LIT, TAG_LST and TAG_LNT.
abbrev pub tag_xt : ℕ
tag_xt = 0

abbrev pub tag_lit : ℕ
tag_lit = 1

abbrev pub tag_lst : ℕ
tag_lst = 2

abbrev pub tag_lnt : ℕ
tag_lnt = 6

pub encode_xt : ℕ → ℕ
encode_xt addr = bit_or (bit_and addr (2 ^ 64 - 4)) tag_xt

pub encode_exit : ℕ
encode_exit = 0

unfoldable pub encode_lit : ℕ → ℕ
encode_lit value = bit_or (value * 2 ^ 2 % 2 ^ 64) tag_lit

pub encode_lst : ℕ → ℕ
encode_lst sym_id = bit_or (sym_id * 2 ^ 3 % 2 ^ 64) tag_lst

pub encode_lnt : ℕ → ℕ
encode_lnt count = bit_or (count * 2 ^ 3 % 2 ^ 64) tag_lnt

pub decode_tag : ℕ → ℕ
decode_tag cell =
    let low2 = bit_and cell 3 in
    if low2 == 3
    then 0
    else if low2 == 2
    then (if bit_and cell 4 == 0 then tag_lst else tag_lnt)
    else low2

-- An arithmetic shift: the two digits that come in are the sign.
pub decode_lit : ℕ → ℕ
decode_lit cell = if ltb cell (2 ^ 63) then cell / 2 ^ 2 else 3 * 2 ^ 62 + cell / 2 ^ 2

pub decode_xt : ℕ → ℕ
decode_xt cell = bit_and cell (2 ^ 64 - 4)

pub decode_lst : ℕ → ℕ
decode_lst cell = cell / 2 ^ 3

pub decode_lnt : ℕ → ℕ
decode_lnt cell = cell / 2 ^ 3

pub is_exit : ℕ → Bool
is_exit cell = cell == 0

pub is_lit : ℕ → Bool
is_lit cell = bit_and cell 3 == tag_lit

pub is_xt : ℕ → Bool
is_xt cell = bit_and cell 3 == tag_xt

pub is_lst : ℕ → Bool
is_lst cell = bit_and cell 7 == tag_lst

pub is_lnt : ℕ → Bool
is_lnt cell = bit_and cell 7 == tag_lnt

-- The first `count` cells of the array are the list. `allocated` is the number of bytes that
-- `malloc` or `realloc` was asked for, a `size_t`; an append that writes past them is undefined,
-- and the list then does not say what is in memory.
pub record CellBuffer : Type 0 where
  pub cells : List ℕ
  pub capacity : ℕ
  pub allocated : ℕ

unfoldable pub cell_buffer_create : CellBuffer
cell_buffer_create = record { cells = []; capacity = 256; allocated = 256 * 8 }

unfoldable pub cell_buffer_append : CellBuffer → ℕ → CellBuffer
cell_buffer_append buf cell =
    let full = leb buf.capacity (length buf.cells) in
    let doubled = buf.capacity * 2 % 2 ^ 64 in
    record {
      cells = buf.cells ++ cell ∷ [];
      capacity = if full then doubled else buf.capacity;
      allocated = if full then doubled * 8 % 2 ^ 64 else buf.allocated;
    }

pub cell_buffer_clear : CellBuffer → CellBuffer
cell_buffer_clear buf = record buf { cells = [] }
