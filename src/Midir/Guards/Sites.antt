-- ===== src/Midir/Guards/Sites.antt =====
-- `collect_downcast_sites` of crates/midir/src/validate.rs: every `Downcast` of a function, those in
-- the index operands of places included.
use bet.Prelude.{ℕ, suc, List, [], ◌∷◌, ◌++◌}
use bet.Midir.Ir.{
  Place, Projs, Proj, Operand, Callee, CopInit, Rvalue, Stmt, Terminator, Block, Func, place,
  no_proj, then_proj, field, index, deref, downcast, const, copy, moved, direct, indirect, extern,
  struct_lit, sum_variant, use_of, bin_op, un_op, cast, call, aggregate, simd, discriminant, cop,
  trust, str_ptr, str_len, slice_ptr, slice_len, addr_of, make_slice, crib_new, crib_global,
  size_of, make_str, assign, evict, evict_slot, nop, goto, branch, switch, holla_check, return,
  panic, unreachable,
}

pub record DowncastSite : Type 0 where
  pub block : ℕ
  pub prefix : Place
  pub variant : ℕ

-- The prefix `place.proj[..k]`, one projection longer.
abbrev pub snoc : Projs → Proj → Projs
snoc no_proj q = then_proj q no_proj
snoc (then_proj p ps) q = then_proj p (snoc ps q)

abbrev pub add_site : ℕ → Place → ℕ → List DowncastSite → List DowncastSite
add_site block prefix v rest = record { block = block; prefix = prefix; variant = v } ∷ rest

unfoldable mutual
  pub sites_in_place : ℕ → Place → List DowncastSite
  sites_in_place block (place l ps) = sites_in_projs block l no_proj ps

  -- The loop over the projections behind the prefix `before`.
  pub sites_in_projs : ℕ → ℕ → Projs → Projs → List DowncastSite
  sites_in_projs block l before no_proj = []
  sites_in_projs block l before (then_proj p ps) =
      sites_in_proj block l before p ++ sites_in_projs block l (snoc before p) ps

  pub sites_in_proj : ℕ → ℕ → Projs → Proj → List DowncastSite
  sites_in_proj block l before (downcast v) = add_site block (place l before) v []
  sites_in_proj block l before (index op) = sites_in_operand block op
  sites_in_proj block l before (field i) = []
  sites_in_proj block l before deref = []

  pub sites_in_operand : ℕ → Operand → List DowncastSite
  sites_in_operand block (copy p) = sites_in_place block p
  sites_in_operand block (moved p) = sites_in_place block p
  sites_in_operand block (const c) = []

abbrev pub sites_in_operands : ℕ → List Operand → List DowncastSite
sites_in_operands block [] = []
sites_in_operands block (op ∷ ops) = sites_in_operand block op ++ sites_in_operands block ops

abbrev pub sites_in_fields : ℕ → List (ℕ × Operand) → List DowncastSite
sites_in_fields block [] = []
sites_in_fields block (q ∷ fields) = sites_in_operand block q.1 ++ sites_in_fields block fields

abbrev pub sites_in_callee : ℕ → Callee → List DowncastSite
sites_in_callee block (indirect op) = sites_in_operand block op
sites_in_callee block (direct id) = []
sites_in_callee block (extern id) = []

abbrev pub sites_in_init : ℕ → CopInit → List DowncastSite
sites_in_init block (struct_lit id fields) = sites_in_fields block fields
sites_in_init block (sum_variant id v ops) = sites_in_operands block ops

unfoldable pub sites_in_rvalue : ℕ → Rvalue → List DowncastSite
sites_in_rvalue block (use_of op) = sites_in_operand block op
sites_in_rvalue block (un_op o op) = sites_in_operand block op
sites_in_rvalue block (cast op ty kind) = sites_in_operand block op
sites_in_rvalue block (discriminant op) = sites_in_operand block op
sites_in_rvalue block (str_ptr op) = sites_in_operand block op
sites_in_rvalue block (str_len op) = sites_in_operand block op
sites_in_rvalue block (slice_ptr op) = sites_in_operand block op
sites_in_rvalue block (slice_len op) = sites_in_operand block op
sites_in_rvalue block (bin_op o a b mode) = sites_in_operand block a ++ sites_in_operand block b
sites_in_rvalue block (trust a b) = sites_in_operand block a ++ sites_in_operand block b
sites_in_rvalue block (call callee args) =
    sites_in_callee block callee ++ sites_in_operands block args
sites_in_rvalue block (aggregate kind ops) = sites_in_operands block ops
sites_in_rvalue block (simd op args ty) = sites_in_operands block args
sites_in_rvalue block (cop crib init) = sites_in_operand block crib ++ sites_in_init block init
sites_in_rvalue block (addr_of p) = sites_in_place block p
sites_in_rvalue block (make_slice d len elem) =
    sites_in_operand block d ++ sites_in_operand block len
sites_in_rvalue block (make_str d len) = sites_in_operand block d ++ sites_in_operand block len
sites_in_rvalue block (crib_new elem capacity) = []
sites_in_rvalue block (crib_global id) = []
sites_in_rvalue block (size_of ty) = []

unfoldable pub sites_in_term : ℕ → Terminator → List DowncastSite
sites_in_term block (goto bb) = []
sites_in_term block unreachable = []
sites_in_term block (branch cond then_bb else_bb) = sites_in_operand block cond
sites_in_term block (switch scrutinee cases default) = sites_in_operand block scrutinee
sites_in_term block (holla_check tag crib resolved live dead) =
    sites_in_operand block tag ++ (sites_in_operand block crib ++ sites_in_place block resolved)
sites_in_term block (return vals) = sites_in_operands block vals
sites_in_term block (panic op) = sites_in_operand block op

abbrev pub sites_in_stmt : ℕ → Stmt → List DowncastSite
sites_in_stmt block (assign p rv) = sites_in_place block p ++ sites_in_rvalue block rv
sites_in_stmt block (evict op) = sites_in_operand block op
sites_in_stmt block (evict_slot crib tag) =
    sites_in_operand block crib ++ sites_in_operand block tag
sites_in_stmt block nop = []

abbrev pub sites_in_stmts : ℕ → List Stmt → List DowncastSite
sites_in_stmts block [] = []
sites_in_stmts block (s ∷ ss) = sites_in_stmt block s ++ sites_in_stmts block ss

abbrev pub sites_from : ℕ → List Block → List DowncastSite
sites_from i [] = []
sites_from i (b ∷ bs) =
    sites_in_stmts i b.stmts ++ (sites_in_term i b.term ++ sites_from (suc i) bs)

unfoldable pub collect_downcast_sites : Func → List DowncastSite
collect_downcast_sites f = sites_from 0 f.blocks
