-- ===== src/Primitives.antt =====
-- src/primitives.c: the dictionary's words for the primitives, as a table. The address of a
-- primitive's assembly routine is the function `op` of its number, as in
-- `primitive_dispatch_table`, which gives each number the routine of the same name. `REG_PRIM` does
-- not look at the result of `parse_type_sig`: on a text that is refused it would go on with what
-- `sig` holds, which the model does not follow (`none`); the table has no such text.
pub mod Texts
pub mod Table
pub mod Registered
use march.Prelude.{ℕ, Bool, true, false, Option, none, some, List, [], ◌∷◌, ◌>>=◌}
use march.Dictionary.{TypeSig, Definition, Dictionary, dict_add}
use march.Dictionary.Parse.{parse_type_sig}

-- What one registration passes to `parse_type_sig` and to `dict_add`.
pub record Registration : Type 0 where
  pub name : List ℕ
  pub addr : ℕ
  pub prim_id : ℕ
  pub type_str : List ℕ
  pub is_primitive : Bool
  pub is_immediate : Bool
  pub handler : Option ℕ

abbrev pub definition_of : Registration → TypeSig → Definition
definition_of reg sig = record {
  addr = reg.addr;
  cid = none;
  prim_id = reg.prim_id;
  sig = some sig;
  is_primitive = reg.is_primitive;
  is_immediate = reg.is_immediate;
  handler = reg.handler;
  word_def = none;
}

unfoldable pub register : Registration → Dictionary → Option Dictionary
register reg dict =
    parse_type_sig reg.type_str >>= λ sig. some (dict_add dict reg.name (definition_of reg sig))

unfoldable pub register_all : List Registration → Dictionary → Option Dictionary
unfolding register
register_all [] dict = some dict
register_all (reg ∷ regs) dict = register reg dict >>= λ next. register_all regs next

abbrev pub reg_prim : (ℕ → ℕ) → List ℕ → ℕ → List ℕ → Registration
reg_prim op name prim_id type_str = record {
  name = name;
  addr = op prim_id;
  prim_id = prim_id;
  type_str = type_str;
  is_primitive = true;
  is_immediate = false;
  handler = none;
}
