-- ===== src/Compiler/Mirror/Offsets.antt =====
-- src/compiler.c: the cells of `if` and `times` once their branches are patched. Each offset counts
-- the cells that are skipped.
use mathlib.Core.List.{append_assoc}
use native.Mathlib.Nat.{pow-suc}
use march.Prelude.{
  ℕ, zero, suc, ◌+◌, ◌*◌, ◌-◌, ◌/◌, ◌%◌, ◌^◌, ◌≡◌, refl, sym, ◌∙◌, ap, List, [], ◌∷◌, ◌++◌, arith,
  length, length-append, append-empty, set, take,
}
use march.Prelude.Bits.{bit_and-mask, mod-mul}
use march.Cells.{CellBuffer, cell_buffer_append, encode_xt, encode_lit, encode_exit}
use march.Blob.{value_bytes}
use march.Dictionary.{DictEntry}
use march.Compiler.{Quotation}
use march.Compiler.Branches.{
  append_cells, body_cells, xt, lit, minus, patch, back_to, body_count, if_cells, LoopPrims,
  times_cells, until_cells,
}

set-append : (xs ys : List ℕ) (y v : ℕ) → set (xs ++ y ∷ ys) (length xs) v ≡ xs ++ v ∷ ys
set-append [] ys y v = refl
set-append (x ∷ xs) ys y v = ap (λ (t : List ℕ). x ∷ t) (set-append xs ys y v)

take-append : (xs ys : List ℕ) → take (length xs) (xs ++ ys) ≡ xs
take-append [] [] = refl
take-append [] (y ∷ ys) = refl
take-append (x ∷ xs) ys = ap (λ (t : List ℕ). x ∷ t) (take-append xs ys)

-- The cells of a quotation without its EXIT, and their number.
pub body_of :
    (quot : Quotation) (cells : List ℕ)
    → quot.cells.cells ≡ cells ++ encode_exit ∷ []
    → (body_cells quot ≡ cells) × (body_count quot ≡ length cells)
body_of quot cells e =
    let count : length quot.cells.cells - 1 ≡ length cells =
      omega (arith, ap (λ (t : List ℕ). length t) e, length-append cells (encode_exit ∷ [])) in
    (rw (count, e) (take-append cells (encode_exit ∷ [])), count)

pub append_cells-eq :
    (cells : List ℕ) (buf : CellBuffer) → (append_cells cells buf).cells ≡ buf.cells ++ cells
unfolding append_cells cell_buffer_append
append_cells-eq [] buf = sym (append-empty buf.cells)
append_cells-eq (cell ∷ cells) buf =
    append_cells-eq cells (cell_buffer_append buf cell) ∙ append_assoc buf.cells (cell ∷ []) cells

-- The placeholder behind `xs` becomes the number of cells behind it.
patch-eq :
    (xs ys : List ℕ) (y pos : ℕ) (buf : CellBuffer)
    → buf.cells ≡ xs ++ y ∷ ys
    → pos ≡ length xs
    → (patch pos buf).cells ≡ xs ++ encode_lit (length ys) ∷ ys
patch-eq xs ys y pos buf e at =
    let count : length (xs ++ y ∷ ys) - length xs - 1 ≡ length ys =
      omega (arith, length-append xs (y ∷ ys)) in
    rw (at, e, count) (set-append xs ys y (encode_lit (length ys)))

minus-eq : (a k : ℕ) → minus a (a + k) ≡ minus 0 k
minus-eq a k = omega arith

module _ (zbranch branch : DictEntry) (on_true on_false : Quotation)
    (true_cells false_cells : List ℕ)
    (in_true : on_true.cells.cells ≡ true_cells ++ encode_exit ∷ [])
    (in_false : on_false.cells.cells ≡ false_cells ++ encode_exit ∷ []) where
  abbrev pub if_list : List ℕ
  if_list =
      encode_xt zbranch.addr
      ∷ encode_lit (length true_cells + 2)
      ∷ (true_cells ++ encode_xt branch.addr ∷ encode_lit (length false_cells) ∷ false_cells)

  -- With two compiled quotations, the cells that `if` leaves are those before, a call of 0branch
  -- and the number of cells to the second quotation, the first quotation without its EXIT, a call
  -- of branch and the number of cells to the end, and the second quotation without its EXIT.
  pub if_cells-eq :
      (buf : CellBuffer)
      → (if_cells zbranch branch on_true on_false buf).cells ≡ buf.cells ++ if_list
  unfolding if_cells cell_buffer_append
  if_cells-eq buf =
      let start = buf.cells ++ encode_xt zbranch.addr ∷ [] in
      let call = encode_xt branch.addr in
      let hole = encode_lit 0 in
      let x = lit 0 (xt branch (append_cells (body_cells on_true) (lit 0 (xt zbranch buf)))) in
      let zs = true_cells ++ call ∷ hole ∷ [] in
      let ys = start ++ encode_lit (length zs) ∷ (true_cells ++ call ∷ []) in
      let e₁ : x.cells ≡ start ++ hole ∷ zs =
        rw (append_cells-eq, (body_of on_true true_cells in_true).0) (simp append_assoc refl) in
      let p₁ = patch-eq start zs hole (length start) x e₁ refl in
      let y = append_cells (body_cells on_false) (patch (length start) x) in
      let e₂ : y.cells ≡ ys ++ hole ∷ false_cells =
        rw (append_cells-eq, p₁, (body_of on_false false_cells in_false).0)
          (simp append_assoc refl) in
      let second = xt branch (append_cells (body_cells on_true) (lit 0 (xt zbranch buf))) in
      let more = length-append true_cells (call ∷ hole ∷ []) in
      let at : length second.cells ≡ length ys = omega (
        arith,
        more,
        length-append second.cells (hole ∷ []),
        ap (λ (t : List ℕ). length t) e₁,
        length-append start (hole ∷ zs),
        length-append start (encode_lit (length zs) ∷ (true_cells ++ call ∷ [])),
        length-append true_cells (call ∷ []),
      ) in
      let count : length zs ≡ length true_cells + 2 = omega (arith, more) in
      patch-eq ys false_cells hole (length second.cells) y e₂ at ∙ rw count (simp append_assoc refl)

module _ (p : LoopPrims) (body : Quotation) (body_list : List ℕ)
    (in_body : body.cells.cells ≡ body_list ++ encode_exit ∷ []) where
  abbrev pub times_list : List ℕ
  times_list =
      encode_xt p.tor.addr
      ∷ encode_xt p.rfetch.addr
      ∷ encode_xt p.zbranch.addr
      ∷ encode_lit (length body_list + 6)
      ∷ encode_xt p.fromr.addr
      ∷ encode_lit 1
      ∷ encode_xt p.sub.addr
      ∷ encode_xt p.tor.addr
      ∷ (body_list
          ++ encode_xt p.branch.addr
            ∷ encode_lit (minus 0 (length body_list + 9))
            ∷ encode_xt p.rdrop.addr
            ∷ [])

  -- With a compiled body, the cells that a counted loop leaves are those before and the loop's,
  -- where the branch out skips the body and six more to the rdrop, and the branch back goes to the
  -- test.
  pub times_cells-eq : (buf : CellBuffer) → (times_cells p body buf).cells ≡ buf.cells ++ times_list
  unfolding times_cells cell_buffer_append
  times_cells-eq buf =
      let entry = buf.cells ++ encode_xt p.tor.addr ∷ [] in
      let test = (entry ++ encode_xt p.rfetch.addr ∷ []) ++ encode_xt p.zbranch.addr ∷ [] in
      let back = xt p.branch (
        append_cells (body_cells body) (
          xt p.tor
            (xt p.sub (lit 1 (xt p.fromr (lit 0 (xt p.zbranch (xt p.rfetch (xt p.tor buf))))))))) in
      let head =
        encode_xt p.fromr.addr ∷ encode_lit 1 ∷ encode_xt p.sub.addr ∷ encode_xt p.tor.addr ∷ [] in
      let e₁ : back.cells
          ≡ test ++ encode_lit 0 ∷ (head ++ body_list ++ encode_xt p.branch.addr ∷ []) =
        rw (append_cells-eq, (body_of body body_list in_body).0) (simp append_assoc refl) in
      let call = encode_xt p.branch.addr in
      let size : length back.cells + 1 ≡ length entry + (length body_list + 9) = omega (
        arith,
        ap (λ (t : List ℕ). length t) e₁,
        length-append test (encode_lit 0 ∷ (head ++ body_list ++ call ∷ [])),
        length-append entry (encode_xt p.rfetch.addr ∷ []),
        length-append (entry ++ encode_xt p.rfetch.addr ∷ []) (encode_xt p.zbranch.addr ∷ []),
        length-append body_list (call ∷ []),
      ) in
      let offset = encode_lit (minus 0 (length body_list + 9)) in
      let tail = head ++ (body_list ++ call ∷ offset ∷ []) in
      let x = back_to (length entry) back in
      let e₂ : x.cells ≡ test ++ encode_lit 0 ∷ tail =
        rw (size, minus-eq (length entry), e₁) (simp append_assoc refl) in
      let count : length tail ≡ length body_list + 6 =
        omega (arith, length-append body_list (call ∷ offset ∷ [])) in
      ap (λ (t : List ℕ). t ++ encode_xt p.rdrop.addr ∷ [])
        (patch-eq test tail (encode_lit 0) (length test) x e₂ refl)
      ∙ rw count (simp append_assoc refl)

module _ (zbranch : DictEntry) (body condition : Quotation) (body_list test_list : List ℕ)
    (in_body : body.cells.cells ≡ body_list ++ encode_exit ∷ [])
    (in_test : condition.cells.cells ≡ test_list ++ encode_exit ∷ []) where
  abbrev pub until_list : List ℕ
  until_list =
      body_list
      ++ (test_list
          ++ encode_xt zbranch.addr
            ∷ encode_lit (minus 0 (length body_list + length test_list + 2))
            ∷ [])

  -- With a compiled body and condition, the cells that the other loop leaves are those before, the
  -- two without their EXIT, and a branch back to the body.
  pub until_cells-eq :
      (buf : CellBuffer) → (until_cells zbranch body condition buf).cells ≡ buf.cells ++ until_list
  unfolding until_cells cell_buffer_append
  until_cells-eq buf =
      let back =
        xt zbranch (append_cells (body_cells condition) (append_cells (body_cells body) buf)) in
      let call = encode_xt zbranch.addr in
      let e : back.cells ≡ buf.cells ++ (body_list ++ (test_list ++ call ∷ [])) =
        rw
          (
            append_cells-eq,
            append_cells-eq,
            (body_of body body_list in_body).0,
            (body_of condition test_list in_test).0,
          )
          (simp append_assoc refl) in
      let size : length back.cells + 1
          ≡ length buf.cells + (length body_list + length test_list + 2) =
        omega (
          arith,
          ap (λ (t : List ℕ). length t) e,
          length-append buf.cells (body_list ++ (test_list ++ call ∷ [])),
          length-append body_list (test_list ++ call ∷ []),
          length-append test_list (call ∷ []),
        ) in
      rw (size, minus-eq (length buf.cells), e) (simp append_assoc refl)

-- A literal is its bytes and its cell, whatever stands above 64 digits.
pub value_bytes-mod : (n v : ℕ) → value_bytes n (v % 256 ^ n) ≡ value_bytes n v
unfolding value_bytes
value_bytes-mod zero v = refl
value_bytes-mod (suc n) v =
    let power : 256 ^ suc n ≡ 256 * 256 ^ n = omega (arith, pow-suc 256 n) in
    let split = mod-mul v 256 (256 ^ n) in
    let low : (v % 256 + v / 256 % 256 ^ n * 256) % 256 ≡ v % 256 = omega arith in
    let high : (v % 256 + v / 256 % 256 ^ n * 256) / 256 ≡ v / 256 % 256 ^ n = omega arith in
    rw (power, split, bit_and-mask 8, low, high, value_bytes-mod n (v / 256), bit_and-mask 8 v) refl

pub encode_lit-mod : (v : ℕ) → encode_lit (v % 2 ^ 64) ≡ encode_lit v
unfolding encode_lit
encode_lit-mod v = let e : v % 2 ^ 64 * 4 % 2 ^ 64 ≡ v * 4 % 2 ^ 64 = omega arith in rw e refl
