-- ===== src/Midir/Build.antt =====
-- `FuncBuilder` of crates/midir/src/build.rs. A step that panics gives `none`.
pub mod Finished
pub mod Terminated
use bet.Prelude.{
  ℕ, zero, suc, ◌+◌, ◌%◌, ◌^◌, Bool, true, false, Option, none, some, List, [], ◌∷◌, ◌++◌, length,
  get_elem?, set, ltb, if◌then◌else◌,
}
use bet.Midir.Ir.{
  Place, Projs, Proj, Operand, Rvalue, Stmt, Terminator, Block, Func, Local, LocalKind, param, temp,
  place, no_proj, then_proj, field, index, deref, downcast, assign, evict, evict_slot, nop, goto,
  branch, switch, holla_check, return, panic, unreachable,
}
use bet.Midir.Guards.Sites.{snoc}

infixl 5 ◌>>=◌
abbrev pub ◌>>=◌ {ℓ κ} : {A : Type ℓ} {B : Type κ} → Option A → (A → Option B) → Option B
none >>= f = none
some a >>= f = f a

pub record PartialBlock : Type 0 where
  pub stmts : List Stmt
  pub term : Option Terminator

pub record FuncBuilder : Type 0 where
  pub name : List ℕ
  pub params : List ℕ
  pub rets : List ℕ
  pub locals : List Local
  pub blocks : List PartialBlock
  pub current : Option ℕ

abbrev pub param_locals : List ℕ → List Local
param_locals [] = []
param_locals (t ∷ ts) = record { ty = t; name = none; kind = param } ∷ param_locals ts

abbrev pub new_builder : List ℕ → List ℕ → List ℕ → FuncBuilder
new_builder name params rets = record {
  name = name;
  params = params;
  rets = rets;
  locals = param_locals params;
  blocks = [];
  current = none;
}

abbrev pub param_id : FuncBuilder → ℕ → Option ℕ
param_id b i = if ltb i (length b.params) then some (i % 2 ^ 32) else none

abbrev pub local_impl : FuncBuilder → ℕ → Option (List ℕ) → ℕ × FuncBuilder
local_impl b ty name = (
  length b.locals % 2 ^ 32,
  record b { locals = b.locals ++ record { ty = ty; name = name; kind = temp } ∷ [] },
)

unfoldable pub new_block : FuncBuilder → ℕ × FuncBuilder
new_block b = (
  length b.blocks % 2 ^ 32,
  record b {
    blocks = b.blocks ++ record { stmts = []; term = none } ∷ [];
    current = some (length b.blocks % 2 ^ 32);
  },
)

abbrev pub select : FuncBuilder → ℕ → Option FuncBuilder
select b bb = if ltb bb (length b.blocks) then some (record b { current = some bb }) else none

-- `cur`: the current block's number and the block.
unfoldable pub cur : FuncBuilder → Option (ℕ × PartialBlock)
cur b = do bb ← b.current; p ← get_elem? b.blocks bb; some (bb, p)

abbrev pub put : FuncBuilder → ℕ → PartialBlock → FuncBuilder
put b bb p = record b { blocks = set b.blocks bb p }

unfoldable pub push_stmt : FuncBuilder → Stmt → Option FuncBuilder
unfolding cur
push_stmt b s = do
  q ← cur b
  some (put b q.0 (record { stmts = q.1.stmts ++ s ∷ []; term = q.1.term }))

abbrev pub terminated :
    FuncBuilder → ℕ → PartialBlock → Terminator → Option Terminator → Option FuncBuilder
terminated b bb p t none = some (put b bb (record { stmts = p.stmts; term = some t }))
terminated b bb p t (some u) = none

unfoldable pub terminate : FuncBuilder → Terminator → Option FuncBuilder
unfolding cur
terminate b t = do q ← cur b; terminated b q.0 q.1 t q.1.term

abbrev pub push_proj : Place → Proj → Place
push_proj (place l ps) p = place l (snoc ps p)

-- The blocks of `finish`, from number `i` on.
unfoldable pub finished : ℕ → List PartialBlock → Option (List Block)
finished i [] = some []
finished i (p ∷ ps) = do
  t ← p.term
  rest ← finished (suc i) ps
  some (record { id = i % 2 ^ 32; stmts = p.stmts; term = t } ∷ rest)

abbrev pub func_of : FuncBuilder → Option (List Block) → Option Func
func_of b none = none
func_of b (some blocks) = some (record {
  name = b.name;
  params = b.params;
  rets = b.rets;
  locals = b.locals;
  blocks = blocks;
  entry = 0;
})

unfoldable pub finish_blocks : FuncBuilder → List PartialBlock → Option Func
unfolding finished
finish_blocks b [] = none
finish_blocks b (p ∷ ps) = func_of b (finished 0 (p ∷ ps))

unfoldable pub finish : FuncBuilder → Option Func
unfolding finished
finish b = finish_blocks b b.blocks
