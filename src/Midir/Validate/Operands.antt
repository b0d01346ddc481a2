-- ===== src/Midir/Validate/Operands.antt =====
-- The operands that rvalues, statements and terminators read. A place whose address is taken, or that is
-- assigned, counts as an operand that copies it.
use bet.Prelude.{ℕ, List, [], ◌∷◌}
use bet.Midir.Ir.{
  Operand, copy, Callee, direct, indirect, extern, CopInit, struct_lit, sum_variant, Rvalue, use_of,
  bin_op, un_op, cast, call, aggregate, simd, discriminant, cop, trust, str_ptr, str_len, slice_ptr,
  slice_len, addr_of, make_slice, crib_new, crib_global, size_of, make_str, Stmt, assign, evict,
  evict_slot, nop, Terminator, goto, branch, switch, holla_check, return, panic, unreachable,
}

abbrev pub values_of : List (ℕ × Operand) → List Operand
values_of [] = []
values_of (q ∷ fields) = q.1 ∷ values_of fields

abbrev pub init_operands : CopInit → List Operand
init_operands (struct_lit sid fields) = values_of fields
init_operands (sum_variant sum v ops) = ops

abbrev pub call_operands : Callee → List Operand → List Operand
call_operands (direct fid) args = args
call_operands (extern eid) args = args
call_operands (indirect op) args = op ∷ args

abbrev pub rvalue_operands : Rvalue → List Operand
rvalue_operands (use_of op) = op ∷ []
rvalue_operands (bin_op op a b mode) = a ∷ b ∷ []
rvalue_operands (un_op op a) = a ∷ []
rvalue_operands (cast op t kind) = op ∷ []
rvalue_operands (call callee args) = call_operands callee args
rvalue_operands (aggregate kind ops) = ops
rvalue_operands (simd op args t) = args
rvalue_operands (discriminant op) = op ∷ []
rvalue_operands (cop crib init) = crib ∷ init_operands init
rvalue_operands (trust crib tag) = crib ∷ tag ∷ []
rvalue_operands (str_ptr op) = op ∷ []
rvalue_operands (str_len op) = op ∷ []
rvalue_operands (slice_ptr op) = op ∷ []
rvalue_operands (slice_len op) = op ∷ []
rvalue_operands (addr_of p) = copy p ∷ []
rvalue_operands (make_slice d len elem) = d ∷ len ∷ []
rvalue_operands (crib_new elem capacity) = []
rvalue_operands (crib_global id) = []
rvalue_operands (size_of t) = []
rvalue_operands (make_str d len) = d ∷ len ∷ []

abbrev pub stmt_operands : Stmt → List Operand
stmt_operands nop = []
stmt_operands (evict op) = op ∷ []
stmt_operands (evict_slot crib tag) = crib ∷ tag ∷ []
stmt_operands (assign p rv) = copy p ∷ rvalue_operands rv

abbrev pub term_operands : Terminator → List Operand
term_operands (goto bb) = []
term_operands (branch cond then_bb else_bb) = cond ∷ []
term_operands (switch scrutinee cases default) = scrutinee ∷ []
term_operands (holla_check tag crib resolved live dead) = tag ∷ crib ∷ copy resolved ∷ []
term_operands (return vals) = vals
term_operands (panic op) = op ∷ []
term_operands unreachable = []
