-- ===== src/Interp/Value.antt =====
-- The values of crates/interp/src/value.rs. A shared `Rc<RefCell<..>>` is the address of its cell; an
-- `f64` and an `f32` are their bits.
use bet.Prelude.{ℕ, Bool, List}
use bet.Midir.Ir.{ℤ}

pub record IntTy : Type 0 where
  pub bits : ℕ
  pub signed : Bool

pub data SimdVal : Type 0 where
  f32_lanes : List ℕ → SimdVal
  f64_lanes : List ℕ → SimdVal
  int_lanes : List ℤ → SimdVal

mutual
  pub data Value : Type 0 where
    int : (v : ℤ) → IntTy → Value
    float : (bits : ℕ) → Value
    byte : ℕ → Value
    bool : Bool → Value
    str : List ℕ → Value
    ghosted : Value
    array : Values → Value
    struct_of : (ty : List ℕ) → Fields → Value
    variant : (moods name : List ℕ) → (payload : Values) → Value
    fn : List ℕ → Value
    yikes : List ℕ → Value
    tag : (arena slot generation : ℕ) → Value
    crib : ℕ → Value
    stash : (cell : ℕ) → Value
    vec : (cell : ℕ) → Value
    rng : (cell : ℕ) → Value
    simd : SimdVal → Value

  pub data Values : Type 0 where
    no_value : Values
    then_value : Value → Values → Values

  pub data Fields : Type 0 where
    no_field : Fields
    then_field : (name : List ℕ) → Value → Fields → Fields

-- The text of an overflow.
pub data What : Type 0 where
  addition subtraction multiplication division remainder negation : What

-- The errors of `RunError` that numbers and sizes meet.
pub data RunError : Type 0 where
  div_by_zero : RunError
  overflow : What → RunError
  type_error : RunError
  alloc_limit : (requested cap : ℕ) → RunError

pub data Ran {ℓ} (A : Type ℓ) : Type ℓ where
  ok : A → Ran A
  fails : RunError → Ran A
  panics : Ran A
