-- ===== src/Cells/Buffer.antt =====
-- src/cells.c: the cell buffer never writes past what it has allocated.
use march.Prelude.{ℕ, ◌*◌, ◌≤◌, ◌<◌, ◌^◌, ◌≡◌, ◌∷◌, [], ◌++◌, refl, arith, length, length-append}
use march.Cells.{CellBuffer, cell_buffer_create, cell_buffer_append, cell_buffer_clear}

-- What is there is inside the capacity, which doubling adds to, and the bytes for all of it were
-- asked for.
pub record IsValid (buf : CellBuffer) : Type 0 where
  pub some_room : 0 < buf.capacity
  pub inside : length buf.cells ≤ buf.capacity
  pub backed : buf.allocated ≡ buf.capacity * 8

pub create-IsValid : IsValid cell_buffer_create
unfolding cell_buffer_create
create-IsValid = omega arith

-- On a valid buffer with a capacity below 2 ^ 60 cells, an append asks for the bytes of all cells
-- that it then has, the one that it writes included, keeps the cells before it, ends with the new
-- one, and leaves the buffer valid.
pub append-IsValid :
    (buf : CellBuffer) (cell : ℕ)
    → IsValid buf
    → buf.capacity < 2 ^ 60
    → IsValid (cell_buffer_append buf cell)
      × (length (cell_buffer_append buf cell).cells * 8 ≤ (cell_buffer_append buf cell).allocated)
      × ((cell_buffer_append buf cell).cells ≡ buf.cells ++ cell ∷ [])
unfolding cell_buffer_append
append-IsValid buf cell ok small =
    let more = length-append buf.cells (cell ∷ []) in
    (ground (arith, more), ground (arith, more), refl)

pub clear-IsValid : (buf : CellBuffer) → IsValid buf → IsValid (cell_buffer_clear buf)
unfolding cell_buffer_clear
clear-IsValid buf ok = omega arith
