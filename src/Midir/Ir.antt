-- ===== src/Midir/Ir.antt =====
-- The data of crates/midir/src/ir.rs that a function body is made of. An id is its number; an `f64` is
-- its 64 bits.
pub mod Eq
use bet.Prelude.{ℕ, Bool, List, Option}

-- An `i128`: `negsuc n` is `-(n + 1)`.
pub data ℤ : Type 0 where
  pos : ℕ → ℤ
  negsuc : ℕ → ℤ

-- `Const`.
pub data Const : Type 0 where
  int : ℤ → (ty : ℕ) → Const
  float : (bits ty : ℕ) → Const
  bool : Bool → Const
  str : List ℕ → Const
  ghosted : Const
  null_ptr : Const
  fn_ref : (func : ℕ) → Const

-- `Place`, `Proj` and `Operand`; a list of projections is the fourth type.
mutual
  pub data Place : Type 0 where
    place : (local : ℕ) → Projs → Place

  pub data Projs : Type 0 where
    no_proj : Projs
    then_proj : Proj → Projs → Projs

  pub data Proj : Type 0 where
    field : ℕ → Proj
    index : Operand → Proj
    deref : Proj
    downcast : (variant : ℕ) → Proj

  pub data Operand : Type 0 where
    const : Const → Operand
    copy : Place → Operand
    moved : Place → Operand

-- `Callee`, `AggKind`, `SimdOp`, `CopInit` and the operators.
pub data Callee : Type 0 where
  direct : (func : ℕ) → Callee
  indirect : Operand → Callee
  extern : (id : ℕ) → Callee

pub data AggKind : Type 0 where
  struct_of : (id : ℕ) → AggKind
  tuple : AggKind
  array : (elem : ℕ) → AggKind
  sum_of : (id variant : ℕ) → AggKind
  simd_of : (elem : ℕ) → AggKind

pub data SimdOp : Type 0 where
  splat : SimdOp
  lane : ℕ → SimdOp
  vmin : SimdOp
  vmax : SimdOp
  vabs : SimdOp
  dot : SimdOp
  vsum : SimdOp
  vlength : SimdOp
  norm : SimdOp

pub data CopInit : Type 0 where
  struct_lit : (id : ℕ) → List (ℕ × Operand) → CopInit
  sum_variant : (id variant : ℕ) → List Operand → CopInit

pub data BinOp : Type 0 where
  add : BinOp
  sub : BinOp
  mul : BinOp
  div : BinOp
  rem : BinOp
  band : BinOp
  bor : BinOp
  bxor : BinOp
  shl : BinOp
  shr : BinOp
  eq_op : BinOp
  ne_op : BinOp
  lt_op : BinOp
  le_op : BinOp
  gt_op : BinOp
  ge_op : BinOp

pub data UnOp : Type 0 where
  neg : UnOp
  not_op : UnOp
  bit_not : UnOp

pub data ArithMode : Type 0 where
  wrap : ArithMode
  trap : ArithMode
  na : ArithMode

pub data CastKind : Type 0 where
  int_zext : CastKind
  int_sext : CastKind
  int_trunc : CastKind
  int_to_float : CastKind
  float_to_int : CastKind
  float_resize : CastKind
  bitcast : CastKind

pub data Rvalue : Type 0 where
  use_of : Operand → Rvalue
  bin_op : BinOp → Operand → Operand → ArithMode → Rvalue
  un_op : UnOp → Operand → Rvalue
  cast : Operand → (ty : ℕ) → CastKind → Rvalue
  call : Callee → List Operand → Rvalue
  aggregate : AggKind → List Operand → Rvalue
  simd : SimdOp → List Operand → (ty : ℕ) → Rvalue
  discriminant : Operand → Rvalue
  cop : Operand → CopInit → Rvalue
  trust : Operand → Operand → Rvalue
  str_ptr : Operand → Rvalue
  str_len : Operand → Rvalue
  slice_ptr : Operand → Rvalue
  slice_len : Operand → Rvalue
  addr_of : Place → Rvalue
  make_slice : (data_ len : Operand) → (elem : ℕ) → Rvalue
  crib_new : (elem capacity : ℕ) → Rvalue
  crib_global : (id : ℕ) → Rvalue
  size_of : (ty : ℕ) → Rvalue
  make_str : (data_ len : Operand) → Rvalue

pub data Stmt : Type 0 where
  assign : Place → Rvalue → Stmt
  evict : Operand → Stmt
  evict_slot : (crib tag : Operand) → Stmt
  nop : Stmt

pub data Terminator : Type 0 where
  goto : (target : ℕ) → Terminator
  branch : (cond : Operand) → (then_bb else_bb : ℕ) → Terminator
  switch : (scrutinee : Operand) → List (ℕ × ℕ) → (default : ℕ) → Terminator
  holla_check : (tag crib : Operand) → (resolved : Place) → (live dead : ℕ) → Terminator
  return : List Operand → Terminator
  panic : Operand → Terminator
  unreachable : Terminator

pub record Block : Type 0 where
  pub id : ℕ
  pub stmts : List Stmt
  pub term : Terminator

pub data LocalKind : Type 0 where
  param : LocalKind
  temp : LocalKind

pub record Local : Type 0 where
  pub ty : ℕ
  pub name : Option (List ℕ)
  pub kind : LocalKind

pub record Func : Type 0 where
  pub name : List ℕ
  pub params : List ℕ
  pub rets : List ℕ
  pub locals : List Local
  pub blocks : List Block
  pub entry : ℕ
