-- ===== src/Midir/Guards/Occurs.antt =====
-- Where a `Downcast` stands in a function, said without the collector of crates/midir/src/validate.rs.
use bet.Prelude.{ℕ, ◌≡◌, some, get_elem?}
use bet.Midir.Ir.{
  Operand, copy, moved, const, Place, place, Projs, no_proj, then_proj, downcast, index, Stmt,
  Block, Func,
}
use bet.Midir.Validate.Operands.{stmt_operands, term_operands}

-- The projections `before`, then `after`.
abbrev pub joined : Projs → Projs → Projs
joined no_proj after = after
joined (then_proj p before) after = then_proj p (joined before after)

-- The operand reads the place.
abbrev pub Reads : Operand → Place → Type 0
Reads (copy p) q = p ≡ q
Reads (moved p) q = p ≡ q
Reads (const c) q = ⊥

-- In a place, or in a place that one of its index operands reads, and so on: the projections that lead
-- to `prefix`, then a `Downcast` to `variant`.
pub data Within (prefix : Place) (variant : ℕ) : Place → Type 0 where
  here :
      {p : Place} (l : ℕ) (before after : Projs)
      → p ≡ place l (joined before (then_proj (downcast variant) after))
      → prefix ≡ place l before
      → Within prefix variant p
  inside :
      {p : Place} (l : ℕ) (before after : Projs) (op : Operand) (q : Place)
      → p ≡ place l (joined before (then_proj (index op) after))
      → Reads op q
      → Within prefix variant q
      → Within prefix variant p

-- A `Downcast` of the block with the number `block`: in an operand that one of its statements or its
-- terminator reads, or in a place that is assigned, resolved or has its address taken.
pub data Occurs (f : Func) (block : ℕ) (prefix : Place) (variant : ℕ) : Type 0 where
  in_stmt :
      (b : Block) (i k : ℕ) (s : Stmt) (op : Operand) (q : Place)
      → get_elem? f.blocks block ≡ some b
      → get_elem? b.stmts i ≡ some s
      → get_elem? (stmt_operands s) k ≡ some op
      → Reads op q
      → Within prefix variant q
      → Occurs f block prefix variant
  in_term :
      (b : Block) (k : ℕ) (op : Operand) (q : Place)
      → get_elem? f.blocks block ≡ some b
      → get_elem? (term_operands b.term) k ≡ some op
      → Reads op q
      → Within prefix variant q
      → Occurs f block prefix variant
