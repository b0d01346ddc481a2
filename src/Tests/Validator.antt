-- ===== src/Tests/Validator.antt =====
-- A module that the validator accepts, with a match on a sum and a call, and the runs of its checks.
use bet.Prelude.{
  List, length, get_elem?, ◌↔◌, ℕ, ◌≡◌, refl, true, none, some, [], ◌∷◌, All, ℕ_discrete,
}
use bet.Midir.Ir.{
  Operand, Place, Stmt, Func, Local, LocalKind, param, temp, place, no_proj, then_proj, field,
  downcast, copy, assign, use_of, discriminant, call, direct, switch, goto, return,
}
use bet.Midir.Module.{Module, TyKind, int_ty, w32, sum_ty, SumDef, new_module, TyKind-discrete}
use bet.Midir.Dominators.{preds_row, compute_dominators, iterate, sweep, visit, new_row}
use bet.Midir.Cfg.{compute_preds, preds_from, add_preds, add_pred, successors}
use bet.Midir.Guards.{
  check_downcast_guards, unguarded_in, unguarded, site_is_guarded, case_guards,
  collect_switch_guards, case_target_is_exclusive,
}
use bet.Midir.Guards.Sites.{collect_downcast_sites, sites_in_place, sites_in_rvalue, sites_in_term}
use bet.Midir.Guards.Accepted.{Guarded}
use bet.Midir.Ir.Eq.{place_eq}
use bet.Midir.Validate.Report.{pure, checked, type_mismatch, bad_target}
use bet.Midir.Validate.Places.{
  field_kind, index_kind, deref_kind, downcast_kind, const_kind, place_kind, projs_kind,
  operand_kind,
}
use bet.Midir.Validate.Values.{check_call_args, call_kind, check_cop_init, rvalue_kind}
use bet.Midir.Validate.{
  check_stmt, check_term, check_blocks, check_func, check_global, check_extern, validate,
}
use bet.Midir.Validate.Typing.{HasKind, has_kind, stop, by_field, by_downcast, of_variant, Is}
use bet.Midir.Validate.PlaceComplete.{place_kind_iff}
use bet.Midir.Validate.Accepts.{FuncOk, validate_sound, validate_guards}
use bet.Midir.Guards.Occurs.{in_stmt, here}
use bet.Midir.Validate.Gives.{OperandKind, copy_kind, use_gives}
use bet.Midir.Validate.Assigns.{assign_typed, check_call_args_typed}

-- Type 0 is an `i32`, type 1 is sum 0, whose variant 1 carries an `i32`.
abbrev i32 : TyKind
i32 = int_ty w32 true

abbrev maybe : SumDef
maybe = record {
  name = [];
  variants = record { name = []; payload = [] } ∷ record { name = []; payload = 0 ∷ [] } ∷ [];
}

abbrev local_of : ℕ → LocalKind → Local
local_of t k = record { ty = t; name = none; kind = k }

abbrev subject : Place
subject = place 0 no_proj

abbrev payload : Place
payload = place 0 (then_proj (downcast 1) (then_proj (field 0) no_proj))

abbrev result : Place
result = place 2 no_proj

abbrev take_payload : Stmt
take_payload = assign result (use_of (copy payload))

-- Function 0 returns the payload, or what function 0 gives for the same argument.
abbrev or_again : Func
or_again = record {
  name = [];
  params = 1 ∷ [];
  rets = 0 ∷ [];
  locals = local_of 1 param ∷ local_of 0 temp ∷ local_of 0 temp ∷ [];
  blocks =
      record {
        id = 0;
        stmts = assign (place 1 no_proj) (discriminant (copy subject)) ∷ [];
        term = switch (copy (place 1 no_proj)) ((1, 1) ∷ []) 2;
      }
      ∷ record { id = 1; stmts = take_payload ∷ []; term = return (copy result ∷ []) }
      ∷ record {
        id = 2;
        stmts = assign result (call (direct 0) (copy subject ∷ [])) ∷ [];
        term = return (copy result ∷ []);
      }
      ∷ [];
  entry = 0;
}

abbrev sample : Module
sample = record new_module { types = i32 ∷ sum_ty 0 ∷ []; sums = maybe ∷ []; funcs = or_again ∷ [] }

sample_root : preds_row (compute_preds or_again) 0 ≡ []
unfolding compute_preds preds_from add_preds add_pred successors
sample_root = refl

sample_accepted : validate sample ≡ pure tt
unfolding validate check_func check_blocks check_stmt check_term check_global check_extern
    rvalue_kind call_kind check_call_args check_cop_init place_kind projs_kind operand_kind
    field_kind index_kind deref_kind downcast_kind const_kind check_downcast_guards
    compute_dominators iterate sweep visit new_row compute_preds preds_from add_preds add_pred
    successors unguarded_in unguarded site_is_guarded case_guards case_target_is_exclusive
    collect_switch_guards collect_downcast_sites sites_in_rvalue sites_in_term sites_in_place
    place_eq TyKind-discrete ℕ_discrete
sample_accepted = refl

validate_sound_example : All (FuncOk sample) (or_again ∷ [])
validate_sound_example = validate_sound sample sample_accepted

validate_guards_example : Guarded or_again (record { block = 1; prefix = subject; variant = 1 })
validate_guards_example =
    validate_guards sample 0 or_again sample_accepted refl sample_root 1 subject 1 (
      in_stmt _ 0 1 take_payload _ _ refl refl refl refl
        (here 0 no_proj (then_proj (field 0) no_proj) refl refl))

payload_kind : HasKind sample or_again payload i32
payload_kind =
    has_kind 0 (then_proj (downcast 1) (then_proj (field 0) no_proj)) (local_of 1 param) (sum_ty 0)
      i32 refl refl
      (by_downcast 0 1 none (then_proj (field 0) no_proj) i32 (
        by_field (sum_ty 0) (some (0, 1)) 0 no_proj i32 i32
          (of_variant (sum_ty 0) 0 1 0 0 maybe (record { name = []; payload = 0 ∷ [] }) i32 refl
            refl refl refl)
          (stop i32 none)))

result_kind : HasKind sample or_again result i32
result_kind = has_kind 2 no_proj (local_of 0 temp) i32 i32 refl refl (stop i32 none)

place_kind_iff_example :
    (place_kind sample or_again payload ≡ pure (some i32)) ↔ HasKind sample or_again payload i32
place_kind_iff_example = place_kind_iff sample or_again payload i32

take_payload_passes : check_stmt sample or_again take_payload ≡ pure tt
unfolding check_stmt rvalue_kind place_kind projs_kind operand_kind field_kind downcast_kind
    TyKind-discrete ℕ_discrete
take_payload_passes = refl

assign_typed_example : i32 ≡ i32
assign_typed_example =
    assign_typed sample or_again result (use_of (copy payload)) i32 i32 take_payload_passes
      result_kind (use_gives (copy payload) i32 (copy_kind payload i32 payload_kind))

subject_kind : HasKind sample or_again subject (sum_ty 0)
subject_kind =
    has_kind 0 no_proj (local_of 1 param) (sum_ty 0) (sum_ty 0) refl refl (stop (sum_ty 0) none)

abbrev one_param : List ℕ
one_param = 1 ∷ []

again_passes : check_call_args sample or_again one_param (copy subject ∷ []) ≡ pure tt
unfolding check_call_args place_kind projs_kind operand_kind TyKind-discrete ℕ_discrete
again_passes = refl

check_call_args_typed_example :
    (length (copy subject ∷ []) ≡ length one_param)
    × ((j : ℕ) (op : Operand) (k : TyKind) (t : ℕ)
        → get_elem? (copy subject ∷ []) j ≡ some op
        → get_elem? one_param j ≡ some t
        → OperandKind sample or_again op k
        → Is sample t k)
check_call_args_typed_example =
    check_call_args_typed sample or_again one_param (copy subject ∷ []) again_passes

-- A jump past the last block, and a payload read as the sum itself, are reported.
abbrev astray : Func
astray = record or_again {
  blocks =
      record { id = 0; stmts = assign subject (use_of (copy result)) ∷ []; term = goto 1 } ∷ [];
}

astray_reported : check_func sample astray ≡ checked (type_mismatch [] ∷ bad_target [] 0 1 ∷ []) tt
unfolding check_func check_blocks check_stmt check_term rvalue_kind place_kind projs_kind
    operand_kind check_downcast_guards unguarded_in unguarded compute_dominators iterate sweep visit
    new_row compute_preds preds_from add_preds add_pred successors collect_switch_guards
    collect_downcast_sites sites_in_rvalue sites_in_term sites_in_place TyKind-discrete ℕ_discrete
astray_reported = refl
