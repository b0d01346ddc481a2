-- ===== src/Midir/Module.antt =====
-- `Module` of crates/midir/src/ir.rs: the interned types and signatures and the tables of a
-- compilation unit. A text is the list of its code points.
pub mod Interning
use bet.Prelude.{
  ℕ, suc, ◌%◌, ◌^◌, Bool, true, false, Option, none, some, List, [], ◌∷◌, ◌++◌, length, ℕ_discrete,
  if◌then◌else◌,
}
use bet.Midir.Ir.{Const, Func}

pub data IntWidth : Type 0 where
  w8 w16 w32 w64 : IntWidth

abbrev pub bits : IntWidth → ℕ
bits w8 = 8
bits w16 = 16
bits w32 = 32
bits w64 = 64

-- `TyKind`; its ids are `TyId`, `StructId`, `SumId` and `SigId`.
pub data TyKind : Type 0 where
  bool_ty : TyKind
  int_ty : (width : IntWidth) → (signed : Bool) → TyKind
  f32 f64 str_ty void raw_ptr : TyKind
  struct_ty : (id : ℕ) → TyKind
  sum_ty : (id : ℕ) → TyKind
  slice : (elem : ℕ) → TyKind
  array_ty : (elem count : ℕ) → TyKind
  soa : (inner : ℕ) → TyKind
  tag_ty : (elem : ℕ) → TyKind
  crib_ty : (elem : ℕ) → TyKind
  ref : (elem : ℕ) → TyKind
  map_ty : (key value : ℕ) → TyKind
  vec_ty : (elem : ℕ) → TyKind
  rng_ty : TyKind
  simd_ty : (elem lanes : ℕ) → TyKind
  fn_ptr : (sig : ℕ) → TyKind
  tuple_ty : List ℕ → TyKind

-- The derived equality of types and of signatures.
unfoldable pub TyKind-discrete : Discrete TyKind
TyKind-discrete = hlevel ℕ_discrete

pub record Sig : Type 0 where
  pub params : List ℕ
  pub rets : List ℕ

pub Sig-discrete : Discrete Sig
Sig-discrete = hlevel ℕ_discrete

pub data Vis : Type 0 where
  flex hush : Vis

pub record Field : Type 0 where
  pub name : List ℕ
  pub ty : ℕ
  pub vis : Vis

pub record StructDef : Type 0 where
  pub name : List ℕ
  pub fields : List Field

pub record Variant : Type 0 where
  pub name : List ℕ
  pub payload : List ℕ

pub record SumDef : Type 0 where
  pub name : List ℕ
  pub variants : List Variant

pub record Global : Type 0 where
  pub name : List ℕ
  pub ty : ℕ
  pub value : Const

pub record CribGlobal : Type 0 where
  pub name : List ℕ
  pub elem : ℕ
  pub capacity : ℕ

pub record Extern : Type 0 where
  pub name : List ℕ
  pub abi : List ℕ
  pub sig : Sig

pub record Module : Type 0 where
  pub types : List TyKind
  pub type_dedup : List (TyKind × ℕ)
  pub sigs : List Sig
  pub sig_dedup : List (Sig × ℕ)
  pub structs : List StructDef
  pub sums : List SumDef
  pub externs : List Extern
  pub globals : List Global
  pub crib_globals : List CribGlobal
  pub funcs : List Func

abbrev pub new_module : Module
new_module = record {
  types = [];
  type_dedup = [];
  sigs = [];
  sig_dedup = [];
  structs = [];
  sums = [];
  externs = [];
  globals = [];
  crib_globals = [];
  funcs = [];
}

-- The test of a `HashMap` key.
abbrev pub holds {ℓ} : {P : Type ℓ} → Dec P → Bool
holds (yes p) = true
holds (no n) = false

-- `HashMap::get` on the list of insertions; `intern_ty` only inserts a key that is not there.
abbrev pub id_of {ℓ} : {K : Type ℓ} → Discrete K → List (K × ℕ) → K → Option ℕ
id_of eq [] k = none
id_of eq (e ∷ dedup) k = let rest = id_of eq dedup k in if holds (eq e.0 k) then some e.1 else rest

-- What both interning functions do to their table and map: the id, the table and the map.
abbrev pub interned {ℓ} :
    {K : Type ℓ} → List K → List (K × ℕ) → K → Option ℕ → ℕ × List K × List (K × ℕ)
interned items dedup k (some id) = (id, items, dedup)
interned items dedup k none =
    (length items % 2 ^ 32, items ++ k ∷ [], (k, length items % 2 ^ 32) ∷ dedup)

unfoldable pub intern {ℓ} :
    {K : Type ℓ} → Discrete K → List K → List (K × ℕ) → K → ℕ × List K × List (K × ℕ)
intern eq items dedup k = interned items dedup k (id_of eq dedup k)

unfoldable pub intern_ty : Module → TyKind → ℕ × Module
unfolding intern
intern_ty m k =
    let r = intern TyKind-discrete m.types m.type_dedup k in
    (r.0, record m { types = r.1; type_dedup = r.2 })

unfoldable pub intern_sig : Module → Sig → ℕ × Module
unfolding intern
intern_sig m k =
    let r = intern Sig-discrete m.sigs m.sig_dedup k in
    (r.0, record m { sigs = r.1; sig_dedup = r.2 })

abbrev pub add_struct : Module → StructDef → ℕ × Module
add_struct m def = (length m.structs % 2 ^ 32, record m { structs = m.structs ++ def ∷ [] })

abbrev pub add_sum : Module → SumDef → ℕ × Module
add_sum m def = (length m.sums % 2 ^ 32, record m { sums = m.sums ++ def ∷ [] })

abbrev pub add_extern : Module → Extern → ℕ × Module
add_extern m ext = (length m.externs % 2 ^ 32, record m { externs = m.externs ++ ext ∷ [] })

abbrev pub add_global : Module → Global → ℕ × Module
add_global m global = (length m.globals % 2 ^ 32, record m { globals = m.globals ++ global ∷ [] })

abbrev pub add_crib_global : Module → CribGlobal → ℕ × Module
add_crib_global m crib =
    (length m.crib_globals % 2 ^ 32, record m { crib_globals = m.crib_globals ++ crib ∷ [] })

abbrev pub add_func : Module → Func → ℕ × Module
add_func m func = (length m.funcs % 2 ^ 32, record m { funcs = m.funcs ++ func ∷ [] })

abbrev pub t_bool : Module → ℕ × Module
unfolding intern_ty
t_bool m = intern_ty m bool_ty

abbrev pub t_int : Module → IntWidth → Bool → ℕ × Module
unfolding intern_ty
t_int m width signed = intern_ty m (int_ty width signed)

abbrev pub t_i64 : Module → ℕ × Module
t_i64 m = t_int m w64 true

abbrev pub t_u32 : Module → ℕ × Module
t_u32 m = t_int m w32 false

abbrev pub t_str : Module → ℕ × Module
t_str m = intern_ty m str_ty

abbrev pub t_void : Module → ℕ × Module
t_void m = intern_ty m void

abbrev pub t_tag : Module → ℕ → ℕ × Module
t_tag m elem = intern_ty m (tag_ty elem)

abbrev pub t_ref : Module → ℕ → ℕ × Module
t_ref m elem = intern_ty m (ref elem)

abbrev pub t_crib : Module → ℕ → ℕ × Module
t_crib m elem = intern_ty m (crib_ty elem)
