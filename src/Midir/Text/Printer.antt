-- ===== src/Midir/Text/Printer.antt =====
-- `Printer` of crates/midir/src/text.rs for constants, operands, places and terminators, and for the
-- statements without an rvalue. A text is the list of its code points; `none` is the panic of an id that
-- the module's tables do not have.
use Prim.Native.String.{String}
use bet.Prelude.{ℕ, true, false, Option, none, some, List, [], ◌∷◌, ◌++◌, get_elem?}
use bet.Midir.Ir.{
  Const, int, float, bool, str, ghosted, null_ptr, fn_ref, Place, place, Projs, no_proj, then_proj,
  Proj, field, index, deref, downcast, Operand, const, copy, moved, Terminator, goto, branch,
  switch, holla_check, return, panic, unreachable,
}
use bet.Midir.Module.{TyKind, int_ty, f32, Module}
use bet.Midir.Text.{quote, escape}
use bet.Midir.Text.Names.{codes, int_name}
use bet.Midir.Text.Decimal.{decimal, decimal_int}

-- `Display` and `str::parse` of the standard library's `f64`, which is its 64 bits.
pub record FloatText : Type 0 where
  pub show : ℕ → List ℕ
  pub read : List ℕ → Option ℕ

infixr 65 ◌+++◌
abbrev pub ◌+++◌ : Option (List ℕ) → Option (List ℕ) → Option (List ℕ)
none +++ b = none
some s +++ none = none
some s +++ some t = some (s ++ t)

abbrev pub lit : String → Option (List ℕ)
lit s = some (codes s)

abbrev pub joined_by : List ℕ → List (Option (List ℕ)) → Option (List ℕ)
joined_by sep [] = some []
joined_by sep (x ∷ []) = x
joined_by sep (x ∷ y ∷ xs) = x +++ (some sep +++ joined_by sep (y ∷ xs))

abbrev pub mapped {ℓ} : {A : Type ℓ} → (A → Option (List ℕ)) → List A → List (Option (List ℕ))
mapped f [] = []
mapped f (x ∷ xs) = f x ∷ mapped f xs

abbrev pub named {ℓ} : {A : Type ℓ} → (A → List ℕ) → Option A → Option (List ℕ)
named name none = none
named name (some a) = some (name a)

abbrev pub int_suffix : Option TyKind → Option (List ℕ)
int_suffix none = none
int_suffix (some (int_ty w signed)) = some (int_name w signed)
int_suffix (some _) = lit "i64"

abbrev pub float_suffix : Option TyKind → Option (List ℕ)
float_suffix none = none
float_suffix (some f32) = lit "f32"
float_suffix (some _) = lit "f64"

abbrev pub print_block : ℕ → Option (List ℕ)
print_block bb = lit "bb" +++ some (decimal bb)

abbrev pub print_case : ℕ × ℕ → Option (List ℕ)
print_case c = some (decimal c.0) +++ (lit " -> " +++ print_block c.1)

module _ (F : FloatText) (m : Module) where
  unfoldable pub print_const : Const → Option (List ℕ)
  print_const (int v ty) = some (decimal_int v) +++ int_suffix (get_elem? m.types ty)
  print_const (float bits ty) = some (F.show bits) +++ float_suffix (get_elem? m.types ty)
  print_const (bool true) = lit "true"
  print_const (bool false) = lit "false"
  print_const (str s) = some (quote ∷ (escape s ++ quote ∷ []))
  print_const ghosted = lit "ghosted"
  print_const null_ptr = lit "nullptr"
  print_const (fn_ref f) = lit "@" +++ named (λ g. g.name) (get_elem? m.funcs f)

  unfoldable mutual
    pub print_operand : Operand → Option (List ℕ)
    print_operand (const c) = print_const c
    print_operand (copy p) = print_place p
    print_operand (moved p) = lit "move " +++ print_place p

    pub print_place : Place → Option (List ℕ)
    print_place (place local ps) = lit "%" +++ (some (decimal local) +++ print_projs ps)

    pub print_projs : Projs → Option (List ℕ)
    print_projs no_proj = some []
    print_projs (then_proj p ps) = print_proj p +++ print_projs ps

    pub print_proj : Proj → Option (List ℕ)
    print_proj (field i) = lit ".field(" +++ (some (decimal i) +++ lit ")")
    print_proj (index op) = lit ".index(" +++ (print_operand op +++ lit ")")
    print_proj deref = lit ".deref"
    print_proj (downcast v) = lit ".downcast(" +++ (some (decimal v) +++ lit ")")

  abbrev pub print_vals : List Operand → Option (List ℕ)
  print_vals [] = lit "return"
  print_vals (v ∷ vs) = lit "return " +++ joined_by (codes ", ") (mapped print_operand (v ∷ vs))

  -- `term`.
  unfoldable pub print_term : Terminator → Option (List ℕ)
  print_term (goto bb) = lit "goto " +++ print_block bb
  print_term (branch cond then_bb else_bb) =
      lit "branch "
      +++ (print_operand cond
          +++ (lit " -> " +++ (print_block then_bb +++ (lit " else " +++ print_block else_bb))))
  print_term (switch scrutinee cases default) =
      lit "switch "
      +++ (print_operand scrutinee
          +++ (lit " ["
              +++ (joined_by (codes ", ") (mapped print_case cases)
                  +++ (lit "] else " +++ print_block default))))
  print_term (holla_check tag crib resolved live dead) =
      lit "holla_check("
      +++ (print_operand tag
          +++ (lit ", "
              +++ (print_operand crib
                  +++ (lit ", "
                      +++ (print_place resolved
                          +++ (lit ") -> "
                              +++ (print_block live +++ (lit " else " +++ print_block dead))))))))
  print_term (return vals) = print_vals vals
  print_term (panic op) = lit "panic " +++ print_operand op
  print_term unreachable = lit "unreachable"
