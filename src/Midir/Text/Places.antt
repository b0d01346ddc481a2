-- ===== src/Midir/Text/Places.antt =====
-- Places and operands of crates/midir/src/text.rs: what is printed is lexed and parsed back.
use bet.Prelude.{ℕ, ◌<◌, ◌^◌, refl, ap, ◌∙◌, some, [], ◌∷◌, ◌++◌, length, length-append, arith}
use bet.Midir.Ir.{
  Const, Place, place, Projs, no_proj, then_proj, Proj, field, index, deref, downcast, Operand,
  const, copy, moved,
}
use bet.Midir.Module.Interning.{IsModule}
use bet.Midir.Text.{ident, num, percent, CharClasses}
use bet.Midir.Text.Names.{codes}
use bet.Midir.Text.Decimal.{decimal}
use bet.Midir.Text.Printer.{FloatText, ◌+++◌, print_operand, print_place, print_projs}
use bet.Midir.Text.Parser.{Parser, Parsed, bound, pure}
use bet.Midir.Text.Steps.{IsUnicode}
use bet.Midir.Text.Numerals.{Lexes-decimal}
use bet.Midir.Text.Written.{
  Written-some, Written-lead, Written-append, Leads-percent, Leads-keyword,
}
use bet.Midir.Text.Constants.{bare_u32-decimal}
use bet.Midir.Text.Operands.{PrintableConst, const_text}
use bet.Midir.Text.Projections.{
  here, PrintableOperand, PrintablePlace, PrintableProjs, PrintableProj, ProjsText, ProjText,
  PlaceText, OperandText, field_text, downcast_text, deref_text, index_text, no_proj_text,
  then_proj_text,
}

module _ (U : CharClasses) (u : IsUnicode U) (F : FloatText) (s : Parser) where
  local_text :
      (n : ℕ) (ps : Projs) → n < 2 ^ 32 → ProjsText U u F s ps → PlaceText U u F s (place n ps)
  unfolding print_place
  local_text n ps h b = (
    num (decimal n) ∷ b.0,
    Written-lead U u (codes "%") (some (decimal n) +++ print_projs F s.m ps) (percent ∷ [])
        (num (decimal n) ∷ b.0) (Leads-percent U u)
        (Written-append U u (some (decimal n)) (print_projs F s.m ps) (num (decimal n) ∷ []) b.0
          (Written-some U u (decimal n) (num (decimal n) ∷ []) (Lexes-decimal U u n)) b.1 b.2),
    λ next rest enough nd.
        let l = length-append b.0 rest in
        let e = enough (here U u F s (b.0 ++ rest)) (length b.0) (omega arith) (omega arith) in
        ap (λ (r : Parsed ℕ). bound r (λ k. λ t. bound (next t) (λ xs. pure (place k xs))))
          (bare_u32-decimal s n (b.0 ++ rest) h)
        ∙ ap (λ (r : Parsed Projs). bound r (λ xs. pure (place n xs))) (e.2 ∙ b.3 e.0 rest e.1 nd),
  )

  constant_text :
      (c : Const) → IsModule s.m → PrintableConst U u F s c → OperandText U u F s (const c)
  unfolding print_operand
  constant_text c im h =
      let t = const_text U u F s c im h in (t.0, t.1, λ next rest enough nd. t.2 next rest, t.3)

  copy_text : (p : Place) → PlaceText U u F s p → OperandText U u F s (copy p)
  unfolding print_operand
  copy_text p t = (
    percent ∷ t.0,
    t.1,
    λ next rest enough nd.
        ap (λ (r : Parsed Place). bound r (λ q. pure (copy q)))
          (t.2 next rest (λ x n le short. enough x n (omega arith) short) nd),
    λ rest. refl,
  )

  moved_text : (p : Place) → PlaceText U u F s p → OperandText U u F s (moved p)
  unfolding print_operand
  moved_text p t = (
    ident (codes "move") ∷ percent ∷ t.0,
    Written-lead U u (codes "move ") (print_place F s.m p) (ident (codes "move") ∷ [])
        (percent ∷ t.0) (Leads-keyword U u (codes "move") refl) t.1,
    λ next rest enough nd.
        ap (λ (r : Parsed Place). bound r (λ q. pure (moved q)))
          (t.2 next rest (λ x n le short. enough x n (omega arith) short) nd),
    λ rest. refl,
  )

  module _ (im : IsModule s.m) where
    mutual
      unfolding PrintableOperand PrintablePlace PrintableProjs PrintableProj

      pub operand_text : (op : Operand) → PrintableOperand U u F s op → OperandText U u F s op
      operand_text (const c) h = constant_text c im h
      operand_text (copy p) h = copy_text p (place_text p h)
      operand_text (moved p) h = moved_text p (place_text p h)

      pub place_text : (p : Place) → PrintablePlace U u F s p → PlaceText U u F s p
      place_text (place n ps) h = local_text n ps h.0 (projs_text ps h.1)

      projs_text : (ps : Projs) → PrintableProjs U u F s ps → ProjsText U u F s ps
      projs_text no_proj h = no_proj_text U u F s
      projs_text (then_proj p ps) h =
          then_proj_text U u F s p ps (proj_text p h.0) (projs_text ps h.1)

      proj_text : (p : Proj) → PrintableProj U u F s p → ProjText U u F s p
      proj_text (field i) h = field_text U u F s i h
      proj_text (index op) h = index_text U u F s op (operand_text op h)
      proj_text deref h = deref_text U u F s
      proj_text (downcast v) h = downcast_text U u F s v h
