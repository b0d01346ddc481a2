-- ===== src/Midir/Guards.antt =====
-- The downcast guard analysis of crates/midir/src/validate.rs: every `Downcast` is dominated by the
-- case of a `Switch` that proves its variant.
pub mod Sites
pub mod Occurs
pub mod Collected
pub mod Sound
pub mod Sole
pub mod Runs
pub mod Accepted
use bet.Prelude.{
  ℕ, zero, suc, ◌+◌, ◌^◌, ◌-◌, Bool, true, false, ◌&&◌, ◌||◌, not, Option, none, some, List, [],
  ◌∷◌, ◌++◌, ◌==◌, ltb, if◌then◌else◌, length,
}
use bet.Midir.Ir.{
  ℤ, Const, Place, Projs, Proj, Operand, Callee, AggKind, SimdOp, CopInit, BinOp, UnOp, ArithMode,
  CastKind, Rvalue, Stmt, Terminator, Block, Func, pos, negsuc, int, float, bool, str, ghosted,
  null_ptr, fn_ref, place, no_proj, then_proj, field, index, deref, downcast, const, copy, moved,
  direct, indirect, extern, struct_of, tuple, array, sum_of, simd_of, splat, lane, vmin, vmax, vabs,
  dot, vsum, vlength, norm, struct_lit, sum_variant, add, sub, mul, div, rem, band, bor, bxor, shl,
  shr, eq_op, ne_op, lt_op, le_op, gt_op, ge_op, neg, not_op, bit_not, wrap, trap, na, int_zext,
  int_sext, int_trunc, int_to_float, float_to_int, float_resize, bitcast, use_of, bin_op, un_op,
  cast, call, aggregate, simd, discriminant, cop, trust, str_ptr, str_len, slice_ptr, slice_len,
  addr_of, make_slice, crib_new, crib_global, size_of, make_str, assign, evict, evict_slot, nop,
  goto, branch, switch, holla_check, return, panic, unreachable,
}
use bet.Midir.Ir.Eq.{place_eq}
use bet.Midir.Dominators.{Matrix, row, bit, preds_row, compute_dominators}
use bet.Midir.Cfg.{compute_preds}
use Sites.{DowncastSite, collect_downcast_sites}

pub record SwitchGuard : Type 0 where
  pub block : ℕ
  pub sum_place : Place
  pub cases : List (ℕ × ℕ)
  pub default : ℕ

abbrev pub usize_max : ℕ
usize_max = 2 ^ 64 - 1

-- The maps `assign_count` and `disc_def`; a count of 0 is a missing entry, which is never stored.
pub record Defs : Type 0 where
  pub assign_count : ℕ → ℕ
  pub disc_def : ℕ → Option (ℕ × Place)

abbrev pub no_defs : Defs
no_defs = record { assign_count = λ l. 0; disc_def = λ l. none }

abbrev pub counted : ℕ → Defs → Defs
counted l d = record {
  assign_count = λ k. if l == k then suc (d.assign_count k) else d.assign_count k;
  disc_def = d.disc_def;
}

abbrev pub defined : ℕ → ℕ × Place → Defs → Defs
defined l at d = record {
  assign_count = d.assign_count;
  disc_def = λ k. if l == k then some at else d.disc_def k;
}

-- `Discriminant(Copy(p) | Move(p))`.
abbrev pub read_place : Rvalue → Option Place
read_place (discriminant (copy p)) = some p
read_place (discriminant (moved p)) = some p
read_place _ = none

abbrev pub define : ℕ → ℕ → Option Place → Defs → Defs
define i l none d = d
define i l (some p) d = defined l (i, p) d

abbrev pub stmt_defs : ℕ → Stmt → Defs → Defs
stmt_defs i (assign (place l no_proj) rv) d = define i l (read_place rv) (counted l d)
stmt_defs i _ d = d

abbrev pub stmts_defs : ℕ → List Stmt → Defs → Defs
stmts_defs i [] d = d
stmts_defs i (s ∷ ss) d = stmts_defs i ss (stmt_defs i s d)

-- The `resolved` binding of a `holla` is an assignment too.
abbrev pub term_defs : Terminator → Defs → Defs
term_defs (holla_check tag crib (place l no_proj) live dead) d = counted l d
term_defs _ d = d

abbrev pub blocks_defs : ℕ → List Block → Defs → Defs
blocks_defs i [] d = d
blocks_defs i (b ∷ bs) d = blocks_defs (suc i) bs (term_defs b.term (stmts_defs i b.stmts d))

abbrev pub scrutinee_local : Operand → Option ℕ
scrutinee_local (copy (place l no_proj)) = some l
scrutinee_local (moved (place l no_proj)) = some l
scrutinee_local _ = none

-- The cases whose target is in range.
abbrev pub cases_below : ℕ → List (ℕ × ℕ) → List (ℕ × ℕ)
cases_below n [] = []
cases_below n (c ∷ cases) = let rest = cases_below n cases in if ltb c.1 n then c ∷ rest else rest

-- The definition of the temp, where it is its only assignment and its block dominates the switch.
abbrev pub trusted : Matrix → ℕ → Option (ℕ × Place) → Option Place
trusted dom i none = none
trusted dom i (some at) = if bit (row dom i) at.0 then some at.1 else none

abbrev pub temp_place : Defs → Matrix → ℕ → Option ℕ → Option Place
temp_place d dom i none = none
temp_place d dom i (some l) = if d.assign_count l == 1 then trusted dom i (d.disc_def l) else none

abbrev pub guard_of : ℕ → ℕ → List (ℕ × ℕ) → ℕ → Option Place → List SwitchGuard
guard_of n i cases default none = []
guard_of n i cases default (some p) =
    record {
      block = i;
      sum_place = p;
      cases = cases_below n cases;
      default = if ltb default n then default else usize_max;
    }
    ∷ []

-- One round of the second loop.
abbrev pub block_guards : ℕ → Defs → Matrix → ℕ → Terminator → List SwitchGuard
block_guards n d dom i (switch scrutinee cases default) =
    guard_of n i cases default (temp_place d dom i (scrutinee_local scrutinee))
block_guards n d dom i _ = []

abbrev pub guards_from : ℕ → Defs → Matrix → ℕ → List Block → List SwitchGuard
guards_from n d dom i [] = []
guards_from n d dom i (b ∷ bs) = block_guards n d dom i b.term ++ guards_from n d dom (suc i) bs

unfoldable pub collect_switch_guards : Func → Matrix → List SwitchGuard
collect_switch_guards f dom =
    guards_from (length f.blocks) (blocks_defs 0 f.blocks no_defs) dom 0 f.blocks

abbrev pub exclusive_cases : List (ℕ × ℕ) → ℕ → ℕ → Bool
exclusive_cases [] t v = true
exclusive_cases (c ∷ cases) t v = (not (c.1 == t) || c.0 == v) && exclusive_cases cases t v

unfoldable pub case_target_is_exclusive : SwitchGuard → ℕ → ℕ → Bool
case_target_is_exclusive g t v = not (g.default == t) && exclusive_cases g.cases t v

abbrev pub single_pred : List ℕ → ℕ → Bool
single_pred [] b = false
single_pred (p ∷ []) b = p == b
single_pred (p ∷ q ∷ ps) b = false

-- The loop over the cases of a guard, and the loop over the guards.
unfoldable pub case_guards :
    DowncastSite → SwitchGuard → Matrix → List (List ℕ) → List (ℕ × ℕ) → Bool
unfolding case_target_is_exclusive
case_guards site g dom preds [] = false
case_guards site g dom preds (c ∷ cases) =
    (c.0 == site.variant
      && (bit (row dom site.block) c.1
          && (single_pred (preds_row preds c.1) g.block
              && case_target_is_exclusive g c.1 site.variant)))
    || case_guards site g dom preds cases

unfoldable pub site_is_guarded : DowncastSite → List SwitchGuard → Matrix → List (List ℕ) → Bool
unfolding case_target_is_exclusive
site_is_guarded site [] dom preds = false
site_is_guarded site (g ∷ gs) dom preds =
    (place_eq g.sum_place site.prefix && case_guards site g dom preds g.cases)
    || site_is_guarded site gs dom preds

-- The sites that `check_downcast_guards` pushes as `DowncastUnguarded`.
unfoldable pub unguarded :
    List SwitchGuard → Matrix → List (List ℕ) → List DowncastSite → List DowncastSite
unfolding site_is_guarded
unguarded gs dom preds [] = []
unguarded gs dom preds (s ∷ sites) =
    let rest = unguarded gs dom preds sites in
    if site_is_guarded s gs dom preds then rest else s ∷ rest

unfoldable pub unguarded_in : Func → Option Matrix → List DowncastSite
unfolding site_is_guarded collect_switch_guards collect_downcast_sites compute_preds
unguarded_in f none = []
unguarded_in f (some dom) =
    unguarded (collect_switch_guards f dom) dom (compute_preds f) (collect_downcast_sites f)

-- An entry out of range is not analysed: it is another error.
unfoldable pub check_downcast_guards : Func → List DowncastSite
unfolding compute_dominators compute_preds
check_downcast_guards f =
    if ltb f.entry (length f.blocks)
    then unguarded_in f (compute_dominators (length f.blocks) f.entry (compute_preds f))
    else []
