-- ===== src/Tests/Graphs.antt =====
-- Functions of the IR that the downcast guard analysis accepts and rejects.
use bet.Prelude.{
  get_elem?, none, length, ℕ, zero, suc, ◌<◌, ◌≡◌, refl, true, false, some, List, [], ◌∷◌, arith,
  contains,
}
use bet.Midir.Ir.{
  Place, Stmt, Terminator, Block, Func, place, no_proj, then_proj, field, downcast, copy, assign,
  use_of, discriminant, goto, switch, return,
}
use bet.Midir.Module.{TyKind, bool_ty, Sig, new_module, intern_ty}
use bet.Midir.Module.Interning.{IsModule, intern_ty_lem, new_module-IsModule}
use bet.Midir.Build.{terminate, cur, PartialBlock, FuncBuilder, new_builder, finish}
use bet.Midir.Guards.Occurs.{Occurs, in_stmt, here}
use bet.Midir.Build.Finished.{finish_builds}
use bet.Midir.Ir.Eq.{place_eq}
use bet.Midir.Dominators.{
  Matrix, row, bit, preds_row, compute_dominators, iterate, sweep, visit, new_row,
}
use bet.Midir.Dominators.Sound.{Walk, Visits, compute_dominators_sound}
use bet.Midir.Cfg.{compute_preds, preds_from, add_preds, add_pred, successors}
use bet.Midir.Guards.Sites.{collect_downcast_sites, sites_in_place, sites_in_rvalue, sites_in_term}
use bet.Midir.Guards.{
  check_downcast_guards, unguarded_in, unguarded, site_is_guarded, case_guards,
  collect_switch_guards, case_target_is_exclusive,
}
use bet.Midir.Guards.Accepted.{Guarded, check_downcast_guards_sound}

-- Local 0 is a sum; its payload for variant 1 goes to local 2; local 1 is the discriminant temp.
abbrev pub sum_place : Place
sum_place = place 0 no_proj

abbrev pub read_payload : Stmt
read_payload =
    assign (place 2 no_proj)
      (use_of (copy (place 0 (then_proj (downcast 1) (then_proj (field 0) no_proj)))))

abbrev pub read_disc : Stmt
read_disc = assign (place 1 no_proj) (discriminant (copy sum_place))

abbrev pub switch_on : ℕ → ℕ → Terminator
switch_on then_bb default = switch (copy (place 1 no_proj)) ((1, then_bb) ∷ []) default

abbrev pub func : List Block → Func
func blocks = record {
  name = [];
  params = 0 ∷ [];
  rets = [];
  locals = [];
  blocks = blocks;
  entry = 0;
}

-- The match that the frontend emits: block 0 tests, block 1 reads, block 2 is the default.
abbrev pub matched : Func
matched = func (
    record { id = 0; stmts = read_disc ∷ []; term = switch_on 1 2 }
    ∷ record { id = 1; stmts = read_payload ∷ []; term = goto 2 }
    ∷ record { id = 2; stmts = []; term = return [] }
    ∷ [])

matched_root : preds_row (compute_preds matched) 0 ≡ []
unfolding compute_preds preds_from add_preds add_pred successors
matched_root = refl

matched_accepted : check_downcast_guards matched ≡ []
unfolding check_downcast_guards compute_dominators iterate sweep visit new_row compute_preds
    preds_from add_preds add_pred successors unguarded_in unguarded site_is_guarded case_guards
    case_target_is_exclusive collect_switch_guards collect_downcast_sites sites_in_rvalue
    sites_in_term sites_in_place place_eq
matched_accepted = refl

-- The read of the payload in block 1 of `matched`.
payload-Occurs : Occurs matched 1 sum_place 1
payload-Occurs =
    in_stmt _ 0 1 read_payload _ _ refl refl refl refl
      (here 0 no_proj (then_proj (field 0) no_proj) refl refl)

check_downcast_guards_sound_example :
    Guarded matched (record { block = 1; prefix = sum_place; variant = 1 })
check_downcast_guards_sound_example =
    check_downcast_guards_sound matched (omega arith) matched_root matched_accepted 1 sum_place 1
      payload-Occurs

-- The downcast stands in the entry block, and a `Switch` jumps back to the entry: the check takes that
-- edge for the guard, although the entry is first entered without it.
abbrev pub looped : Func
looped = func (
    record { id = 0; stmts = read_payload ∷ []; term = goto 1 }
    ∷ record { id = 1; stmts = read_disc ∷ []; term = switch_on 0 2 }
    ∷ record { id = 2; stmts = []; term = return [] }
    ∷ [])

looped_accepted : check_downcast_guards looped ≡ []
unfolding check_downcast_guards compute_dominators iterate sweep visit new_row compute_preds
    preds_from add_preds add_pred successors unguarded_in unguarded site_is_guarded case_guards
    case_target_is_exclusive collect_switch_guards collect_downcast_sites sites_in_rvalue
    sites_in_term sites_in_place place_eq
looped_accepted = refl

-- A downcast with no test before it, and one behind the default edge, are reported.
abbrev pub defaulted : Func
defaulted = func (
    record { id = 0; stmts = read_disc ∷ []; term = switch_on 2 1 }
    ∷ record { id = 1; stmts = read_payload ∷ []; term = goto 2 }
    ∷ record { id = 2; stmts = []; term = return [] }
    ∷ [])

defaulted_reported :
    check_downcast_guards defaulted ≡ record { block = 1; prefix = sum_place; variant = 1 } ∷ []
unfolding check_downcast_guards compute_dominators iterate sweep visit new_row compute_preds
    preds_from add_preds add_pred successors unguarded_in unguarded site_is_guarded case_guards
    case_target_is_exclusive collect_switch_guards collect_downcast_sites sites_in_rvalue
    sites_in_term sites_in_place place_eq
defaulted_reported = refl

-- A block that nothing reaches jumps to block 3: block 1 still dominates block 3, and its bit is lost.
abbrev pub dead_edge : List (List ℕ)
dead_edge = [] ∷ (0 ∷ []) ∷ [] ∷ (1 ∷ 2 ∷ []) ∷ []

dead_edge_loses :
    compute_dominators 4 0 dead_edge
    ≡ some (
        (true ∷ false ∷ false ∷ false ∷ [])
        ∷ (true ∷ true ∷ false ∷ false ∷ [])
        ∷ (false ∷ false ∷ true ∷ false ∷ [])
        ∷ (false ∷ false ∷ false ∷ true ∷ [])
        ∷ [])
unfolding compute_dominators iterate sweep visit new_row
dead_edge_loses = refl

-- A diamond.
abbrev pub diamond : List (List ℕ)
diamond = [] ∷ (0 ∷ []) ∷ (0 ∷ []) ∷ (1 ∷ 2 ∷ []) ∷ []

diamond-InRange : (b p : ℕ) → contains (preds_row diamond b) p ≡ true → p < 4
diamond-InRange zero p e = ground arith
diamond-InRange (suc zero) p e = ground arith
diamond-InRange (suc (suc zero)) p e = ground arith
diamond-InRange (suc (suc (suc zero))) p e = ground arith
diamond-InRange (suc (suc (suc (suc b)))) p e = ground arith

compute_dominators_sound_example :
    (dom : Matrix) × (compute_dominators 4 0 diamond ≡ some dom)
    × ((b a : ℕ) → bit (row dom b) a ≡ true → (w : Walk 4 0 diamond b) → Visits 4 0 diamond b w a)
compute_dominators_sound_example =
    compute_dominators_sound 4 0 diamond (omega arith) diamond-InRange

-- A builder with one ended block, and one whose second block is open.
abbrev pub built : FuncBuilder
built = record (new_builder [] [] []) {
  blocks = record { stmts = []; term = some (return []) } ∷ [];
}

finish_builds_example :
    (f : Func) × (finish built ≡ some f)
    × (length f.blocks ≡ length built.blocks)
    × (f.entry < length f.blocks)
    × ((i : ℕ) (c : Block) → get_elem? f.blocks i ≡ some c → c.id ≡ i)
    × ((i : ℕ) (p : PartialBlock) (c : Block)
        → get_elem? built.blocks i ≡ some p
        → get_elem? f.blocks i ≡ some c
        → (c.stmts ≡ p.stmts) × (p.term ≡ some c.term))
finish_builds_example = finish_builds built (omega arith) (omega arith) ((return [], refl), tt)

intern_ty_lem_example :
    (get_elem? (intern_ty new_module bool_ty).1.types (intern_ty new_module bool_ty).0
      ≡ some bool_ty)
    × ((id : ℕ) (x : TyKind)
        → get_elem? new_module.types id ≡ some x
        → get_elem? (intern_ty new_module bool_ty).1.types id ≡ some x)
    × IsModule (intern_ty new_module bool_ty).1
    × (intern_ty (intern_ty new_module bool_ty).1 bool_ty ≡ intern_ty new_module bool_ty)
intern_ty_lem_example = intern_ty_lem new_module bool_ty (omega arith) new_module-IsModule

abbrev pub unit_sig : Sig
unit_sig = record { params = []; rets = [] }

-- Two open blocks, the first of them selected; the first is ended.
abbrev pub selected : FuncBuilder
selected = record built {
  blocks = record { stmts = []; term = none } ∷ record { stmts = []; term = none } ∷ [];
  current = some 0;
}

abbrev pub first_ended : FuncBuilder
first_ended = record selected {
  blocks = record { stmts = []; term = some (goto 1) } ∷ record { stmts = []; term = none } ∷ [];
}

goto_recorded : terminate selected (goto 1) ≡ some first_ended
unfolding terminate cur
goto_recorded = refl
