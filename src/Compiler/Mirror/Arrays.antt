-- ===== src/Compiler/Mirror/Arrays.antt =====
-- src/compiler.c: the code for an array literal writes an item for each cell, and the array takes
-- the place of its elements.
use march.Prelude.{
  ℕ, zero, suc, ◌+◌, ◌*◌, ◌-◌, ◌≡◌, refl, true, Bool-cases, inl, inr, List, [], ◌∷◌, ltb, ◌==◌,
  bytes_eq, length, take, drop,
}
use march.Types.{type_array}
use march.Dictionary.{DictEntry}
use march.Database.{Storage}
use march.Compiler.{Compiler, StackEntry, with_stack}
use march.Compiler.Emit.{Result, ◌>>◌, done, with_prim, call, emit_literal, emit_literal_untested}
use march.Compiler.Words.{name_dup, name_swap}
use march.Compiler.Arrays.{
  ArrayPrims, elem_type, all_of_type, store_field, at_offset, write_header, store_elements,
  fill_array, replace_elements, array_of, empty_array, compile_rbracket, name_alloc, name_store,
  name_cstore, name_add, name_tor, name_fromr, name_rfetch,
}
use march.Compiler.Mirror.{IsPrimId, emitted_names, one_of, Grows, Keeps, Keeps-then, Grows-still}
use march.Compiler.Mirror.Emit.{
  with_prim-Keeps, emit_call-Grows, emit_literal-Keeps, push_type-Grows, IsReady-as,
}
use march.Compiler.Mirror.Literals.{with_stack-Grows}

-- The primitives have numbers.
record AreNumbered (p : ArrayPrims) : Type 0 where
  pub store : IsPrimId p.store.prim_id
  pub tor : IsPrimId p.tor.prim_id
  pub fromr : IsPrimId p.fromr.prim_id
  pub rfetch : IsPrimId p.rfetch.prim_id
  pub add : IsPrimId p.add.prim_id
  pub dup : IsPrimId p.dup.prim_id
  pub cstore : IsPrimId p.cstore.prim_id

module _ (os : Storage) (sized : (bytes : List ℕ) → length (os.sha256 bytes) ≡ 32)
    (words : List DictEntry) (base : Compiler) where
  -- A result, and one more call or literal behind it.
  abbrev Kept : Result → Type 0
  Kept r = Keeps words base r

  then_call :
      (r : Result) (prim : DictEntry) → Kept r → IsPrimId prim.prim_id → Kept (r >> call prim)
  unfolding call
  then_call r prim k ok =
      Keeps-then words base r (call prim) k (λ c g. emit_call-Grows words base c prim g ok)

  then_literal :
      (r : Result) (value : ℕ)
      → Kept r
      → Kept (r >> emit_literal os value) × Kept (r >> emit_literal_untested os value)
  then_literal r value k = (
    Keeps-then words base r (emit_literal os value) k
        (λ c g. (emit_literal-Keeps os sized words base c value g).0),
    Keeps-then words base r (emit_literal_untested os value) k
        (λ c g. (emit_literal-Keeps os sized words base c value g).1),
  )

  then_named :
      (r : Result) (name : List ℕ) (next : DictEntry → Compiler → Result)
      → one_of emitted_names name ≡ true
      → Kept r
      → ((prim : DictEntry) (c : Compiler)
          → IsPrimId prim.prim_id
          → Grows words base c
          → Kept (next prim c))
      → Kept (r >> with_prim name next)
  then_named r name next known k f =
      Keeps-then words base r (with_prim name next) k
        (λ c g. with_prim-Keeps words base name next c known g.ready (λ prim ok. f prim c ok g))

  offset-Keeps :
      (p : ArrayPrims) (offset : ℕ) (comp : Compiler)
      → AreNumbered p
      → Grows words base comp
      → Kept (at_offset os p offset comp)
  unfolding at_offset
  offset-Keeps p offset comp ok g =
      then_call _ p.add (then_literal _ offset (then_call (done comp) p.dup g ok.dup)).1 ok.add

  then_offset :
      (r : Result) (p : ArrayPrims) (offset : ℕ)
      → AreNumbered p
      → Kept r
      → Kept (r >> at_offset os p offset)
  then_offset r p offset ok k =
      Keeps-then words base r (at_offset os p offset) k (λ c g. offset-Keeps p offset c ok g)

  write_header-Keeps :
      (p : ArrayPrims) (count type : ℕ) (comp : Compiler)
      → AreNumbered p
      → Grows words base comp
      → Kept (write_header os p count type comp)
  unfolding write_header store_field bytes_eq
  write_header-Keeps p count type comp ok g =
      let counted : Kept (store_field os p count comp) =
        then_call _ p.store (then_literal _ count (then_call (done comp) p.dup g ok.dup)).1
          ok.store in
      let sized = (then_literal _ 8 (then_offset _ p 8 ok counted)).1 in
      let swapped =
        then_named _ name_swap (λ swap c. call swap c >> call p.cstore) refl sized
          (λ swap c known k. then_call _ p.cstore (then_call (done c) swap k known) ok.cstore) in
      then_call _ p.store (then_literal _ type (then_offset _ p 16 ok swapped)).1 ok.store

  store_elements-Keeps :
      (p : ArrayPrims) (n : ℕ) (comp : Compiler)
      → AreNumbered p
      → Grows words base comp
      → Kept (store_elements os p n comp)
  unfolding store_elements bytes_eq
  store_elements-Keeps p zero comp ok g = g
  store_elements-Keeps p (suc i) comp ok g =
      let at =
        then_call _ p.add
          (then_literal _ (32 + i * 8) (then_call (done comp) p.rfetch g ok.rfetch)).0 ok.add in
      let swapped =
        then_named _ name_swap call refl at (λ swap c known k. then_call (done c) swap k known) in
      Keeps-then words base _ (λ c. store_elements os p i c) (then_call _ p.store swapped ok.store)
        (λ c k. store_elements-Keeps p i c ok k)

  fill_array-Keeps :
      (count type : ℕ) (alloc store : DictEntry) (comp : Compiler)
      → IsPrimId store.prim_id
      → Grows words base comp
      → Kept (fill_array os count type alloc store comp)
  unfolding fill_array bytes_eq
  fill_array-Keeps count type alloc store comp stores g = named name_tor _ refl λ tor tor_ok.
      named name_fromr _ refl λ fromr fromr_ok. named name_rfetch _ refl λ rfetch rfetch_ok.
        named name_add _ refl λ add add_ok. named name_dup _ refl λ dup dup_ok.
          named name_cstore _ refl λ cstore cstore_ok.
            let p : ArrayPrims = record {
              alloc = alloc;
              store = store;
              tor = tor;
              fromr = fromr;
              rfetch = rfetch;
              add = add;
              dup = dup;
              cstore = cstore;
            } in
            let ok : AreNumbered p = record {
              store = stores;
              tor = tor_ok;
              fromr = fromr_ok;
              rfetch = rfetch_ok;
              add = add_ok;
              dup = dup_ok;
              cstore = cstore_ok;
            } in
            let header = then_call _ tor (write_header-Keeps p count type comp ok g) tor_ok in
            then_call _ fromr
              (Keeps-then words base _ (λ c. store_elements os p count c) header
                (λ c k. store_elements-Keeps p count c ok k))
              fromr_ok
    where
      named :
          (name : List ℕ) (next : DictEntry → Compiler → Result)
          → one_of emitted_names name ≡ true
          → ((prim : DictEntry) → IsPrimId prim.prim_id → Kept (next prim comp))
          → Kept (with_prim name next comp)
      named name next known f = with_prim-Keeps words base name next comp known g.ready f

  then_replace :
      (r : Result) (below : List StackEntry) → Kept r → Kept (r >> replace_elements os below)
  unfolding replace_elements
  then_replace r below k = Keeps-then words base r (replace_elements os below) k (λ c g.
      push_type-Grows words base (with_stack c below) type_array
        (with_stack-Grows words base c below g))

  -- A literal, behind which the array's memory is allocated.
  allocated :
      (alloc : DictEntry) (value : ℕ) (comp : Compiler)
      → IsPrimId alloc.prim_id
      → Grows words base comp
      → Kept (emit_literal os value comp >> call alloc)
  allocated alloc value comp ok g = then_call _ alloc (then_literal (done comp) value g).0 ok

  array_of-Keeps :
      (elements below : List StackEntry) (comp : Compiler)
      → Grows words base comp
      → Kept (array_of os elements below comp)
  unfolding array_of bytes_eq
  array_of-Keeps elements below comp g =
      elim (Bool-cases (all_of_type (elem_type elements) elements)) [
        | inr mixed ↦ rw (mixed, Keeps) tt
        | inl same ↦ rw same (
            with_prim-Keeps words base name_alloc _ comp refl g.ready λ alloc alloc_ok.
              with_prim-Keeps words base name_store _ comp refl g.ready λ store store_ok.
                then_replace _ below (
                  Keeps-then words base _
                    (λ c. fill_array os (length elements) (elem_type elements) alloc store c)
                    (allocated alloc (32 + length elements * 8) comp alloc_ok g)
                    (λ c k.
                      fill_array-Keeps (length elements) (elem_type elements) alloc store c store_ok
                        k)))
      ]

  empty_array-Keeps :
      (below : List StackEntry) (comp : Compiler)
      → Grows words base comp
      → Kept (empty_array os below comp)
  unfolding empty_array bytes_eq
  empty_array-Keeps below comp g =
      with_prim-Keeps words base name_alloc _ comp refl g.ready λ alloc alloc_ok.
        with_prim-Keeps words base name_store _ comp refl g.ready λ store store_ok.
          let named =
            then_named _ name_dup call refl (allocated alloc 32 comp alloc_ok g)
              (λ dup c known k. then_call (done c) dup k known) in
          then_replace _ below (then_call _ store (then_literal _ 0 named).1 store_ok)

  rbracket-Keeps :
      (comp : Compiler) (markers : List ℕ)
      → comp.array_marker_stack ≡ markers
      → Grows words base comp
      → Kept (compile_rbracket os comp)
  unfolding compile_rbracket
  rbracket-Keeps comp [] at g = rw (at, Keeps) tt
  rbracket-Keeps comp (marker ∷ markers) at g =
      let depth = length comp.type_stack in
      let closed = record comp { array_marker_stack = markers } in
      let kept : Grows words base closed =
        Grows-still words base comp closed g refl refl
          (IsReady-as words comp closed refl refl refl g.ready) in
      elim (Bool-cases (ltb depth marker)) [
        | inl below ↦ rw (at, below, Keeps) tt
        | inr above ↦ elim (Bool-cases (depth == marker)) [
          | inl none_new ↦ rw (at, above, none_new) (empty_array-Keeps comp.type_stack closed kept)
          | inr some_new ↦
              rw (at, above, some_new)
                (array_of-Keeps (take (depth - marker) comp.type_stack)
                  (drop (depth - marker) comp.type_stack) closed kept)
        ]
      ]

  pub compile_rbracket-Keeps :
      (comp : Compiler) → Grows words base comp → Kept (compile_rbracket os comp)
  compile_rbracket-Keeps comp g = rbracket-Keeps comp comp.array_marker_stack refl g
