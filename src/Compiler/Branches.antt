-- ===== src/Compiler/Branches.antt =====
-- src/compiler.c: the code that `if` and `times` emit around their quotations once these are
-- compiled, in the cells and in the blob. The offset of a branch counts cells from the one behind
-- it. A compiled quotation's last cell is EXIT, which is left out.
use march.Prelude.{
  ℕ, ◌+◌, ◌-◌, ◌%◌, ◌^◌, Option, none, some, List, [], ◌∷◌, ◌>>=◌, length, take, set,
}
use march.Cells.{CellBuffer, cell_buffer_append, encode_xt, encode_lit}
use march.Blob.{BlobBuffer, encode_primitive, encode_inline_literal, blob_buffer_append_bytes}
use march.Dictionary.{DictEntry}
use march.Compiler.{Compiler, Quotation}
use march.Compiler.Emit.{Result, done, with_prim}
use march.Compiler.Arrays.{name_tor, name_fromr, name_rfetch}

abbrev pub name_zbranch : List ℕ
name_zbranch = 48 ∷ 98 ∷ 114 ∷ 97 ∷ 110 ∷ 99 ∷ 104 ∷ []

abbrev pub name_branch : List ℕ
name_branch = 98 ∷ 114 ∷ 97 ∷ 110 ∷ 99 ∷ 104 ∷ []

abbrev pub name_rdrop : List ℕ
name_rdrop = 114 ∷ 100 ∷ 114 ∷ 111 ∷ 112 ∷ []

abbrev pub name_sub : List ℕ
name_sub = 45 ∷ []

abbrev pub name_zerop : List ℕ
name_zerop = 48 ∷ 61 ∷ []

unfoldable pub append_cells : List ℕ → CellBuffer → CellBuffer
append_cells [] buf = buf
append_cells (cell ∷ cells) buf = append_cells cells (cell_buffer_append buf cell)

abbrev pub body_cells : Quotation → List ℕ
body_cells quot = take (length quot.cells.cells - 1) quot.cells.cells

abbrev pub xt : DictEntry → CellBuffer → CellBuffer
xt prim buf = cell_buffer_append buf (encode_xt prim.addr)

abbrev pub lit : ℕ → CellBuffer → CellBuffer
lit value buf = cell_buffer_append buf (encode_lit value)

-- `a - b` as an `int64_t`.
abbrev pub minus : ℕ → ℕ → ℕ
minus a b = (a + 2 ^ 64 - b) % 2 ^ 64

-- The offset from the cell behind `pos` to the end.
abbrev pub patch : ℕ → CellBuffer → CellBuffer
patch pos buf = record buf { cells = set buf.cells pos (encode_lit (length buf.cells - pos - 1)) }

-- A branch back to `start`, behind its primitive.
abbrev pub back_to : ℕ → CellBuffer → CellBuffer
back_to start buf = lit (minus start (length buf.cells + 1)) buf

abbrev pub body_count : Quotation → ℕ
body_count quot = length quot.cells.cells - 1

abbrev pub finish : Compiler → CellBuffer → Option BlobBuffer → Result
finish comp cells none = none
finish comp cells (some blob) = done (record comp { cells = cells; blob = blob })

unfoldable pub if_cells : DictEntry → DictEntry → Quotation → Quotation → CellBuffer → CellBuffer
unfolding append_cells
if_cells zbranch branch on_true on_false buf =
    let first = xt zbranch buf in
    let second = xt branch (append_cells (body_cells on_true) (lit 0 first)) in
    patch (length second.cells)
      (append_cells (body_cells on_false) (patch (length first.cells) (lit 0 second)))

unfoldable pub if_blob :
    DictEntry → DictEntry → Quotation → Quotation → BlobBuffer → Option BlobBuffer
if_blob zbranch branch on_true on_false buf =
    encode_inline_literal (encode_primitive buf zbranch.prim_id) (body_count on_true + 2) >>= λ b.
    blob_buffer_append_bytes b on_true.blob.bytes >>= λ b.
    encode_inline_literal (encode_primitive b branch.prim_id) (body_count on_false) >>= λ b.
    blob_buffer_append_bytes b on_false.blob.bytes

unfoldable pub emit_if : Quotation → Quotation → Compiler → Result
emit_if on_true on_false comp =
    with_prim name_zbranch
      (λ zbranch. with_prim name_branch λ branch c.
        finish c (if_cells zbranch branch on_true on_false c.cells)
          (if_blob zbranch branch on_true on_false c.blob))
      comp

-- The primitives of a counted loop.
pub record LoopPrims : Type 0 where
  pub tor : DictEntry
  pub fromr : DictEntry
  pub rfetch : DictEntry
  pub rdrop : DictEntry
  pub sub : DictEntry
  pub zbranch : DictEntry
  pub branch : DictEntry

unfoldable pub times_cells : LoopPrims → Quotation → CellBuffer → CellBuffer
unfolding append_cells
times_cells p body buf =
    let start = xt p.tor buf in
    let test = xt p.zbranch (xt p.rfetch start) in
    let next = xt p.tor (xt p.sub (lit 1 (xt p.fromr (lit 0 test)))) in
    let back = xt p.branch (append_cells (body_cells body) next) in
    xt p.rdrop (patch (length test.cells) (back_to (length start.cells) back))

unfoldable pub times_blob : LoopPrims → Quotation → BlobBuffer → Option BlobBuffer
times_blob p body buf =
    let start = encode_primitive (encode_primitive buf p.tor.prim_id) p.rfetch.prim_id in
    encode_inline_literal (encode_primitive start p.zbranch.prim_id) (body_count body + 6) >>= λ b.
    encode_inline_literal (encode_primitive b p.fromr.prim_id) 1 >>= λ b.
    blob_buffer_append_bytes (encode_primitive (encode_primitive b p.sub.prim_id) p.tor.prim_id)
      body.blob.bytes
    >>= λ b.
        encode_inline_literal (encode_primitive b p.branch.prim_id) (minus 0 (body_count body + 9))
        >>= λ b. some (encode_primitive b p.rdrop.prim_id)

unfoldable pub emit_times : Quotation → Compiler → Result
emit_times body comp =
    with_prim name_tor
      (λ tor. with_prim name_fromr λ fromr. with_prim name_rfetch λ rfetch.
        with_prim name_rdrop λ rdrop. with_prim name_sub λ sub. with_prim name_zerop λ zerop.
          with_prim name_zbranch λ zbranch. with_prim name_branch λ branch c.
            let p : LoopPrims = record {
              tor = tor;
              fromr = fromr;
              rfetch = rfetch;
              rdrop = rdrop;
              sub = sub;
              zbranch = zbranch;
              branch = branch;
            } in
            finish c (times_cells p body c.cells) (times_blob p body c.blob))
      comp

unfoldable pub until_cells : DictEntry → Quotation → Quotation → CellBuffer → CellBuffer
unfolding append_cells
until_cells zbranch body condition buf =
    back_to (length buf.cells)
      (xt zbranch (append_cells (body_cells condition) (append_cells (body_cells body) buf)))

unfoldable pub until_blob : DictEntry → Quotation → Quotation → BlobBuffer → Option BlobBuffer
until_blob zbranch body condition buf = blob_buffer_append_bytes buf body.blob.bytes >>= λ b.
    blob_buffer_append_bytes b condition.blob.bytes >>= λ b.
    encode_inline_literal (encode_primitive b zbranch.prim_id)
      (minus 0 (body_count body + body_count condition + 2))

unfoldable pub emit_until : Quotation → Quotation → Compiler → Result
emit_until body condition comp =
    with_prim name_zbranch
      (λ zbranch. with_prim name_branch λ branch c.
        finish c (until_cells zbranch body condition c.cells)
          (until_blob zbranch body condition c.blob))
      comp
