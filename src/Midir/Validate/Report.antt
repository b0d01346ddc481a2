-- ===== src/Midir/Validate/Report.antt =====
-- The errors of crates/midir/src/validate.rs, without their message texts, and what a checking step
-- gives: the errors that it pushes and its result, or a panic of an index out of range.
use bet.Prelude.{ℕ, Option, none, some, List, [], ◌∷◌, ◌++◌}

pub data ValidationError : Type 0 where
  empty_func : (func : List ℕ) → ValidationError
  bad_entry : (func : List ℕ) → (entry : ℕ) → ValidationError
  bad_target : (func : List ℕ) → (block target : ℕ) → ValidationError
  return_arity : (func : List ℕ) → (block got want : ℕ) → ValidationError
  bad_local : (func : List ℕ) → (local : ℕ) → ValidationError
  bad_projection : (func : List ℕ) → ValidationError
  bad_id : (func : List ℕ) → ValidationError
  bad_shape : (func : List ℕ) → ValidationError
  type_mismatch : (func : List ℕ) → ValidationError
  downcast_unguarded : (func : List ℕ) → (block variant : ℕ) → ValidationError

pub data Checked {ℓ} (A : Type ℓ) : Type ℓ where
  panics : Checked A
  checked : List ValidationError → A → Checked A

-- The errors of before stand in front.
abbrev pub after {ℓ} : {A : Type ℓ} → List ValidationError → Checked A → Checked A
after es panics = panics
after es (checked fs b) = checked (es ++ fs) b

infixl 1 ◌>>=◌ ◌>>◌
abbrev pub ◌>>=◌ {ℓ κ} : {A : Type ℓ} {B : Type κ} → Checked A → (A → Checked B) → Checked B
panics >>= f = panics
checked es a >>= f = after es (f a)

abbrev pub ◌>>◌ {ℓ κ} : {A : Type ℓ} {B : Type κ} → Checked A → Checked B → Checked B
r >> s = r >>= λ _. s

abbrev pub pure {ℓ} : {A : Type ℓ} → A → Checked A
pure a = checked [] a

abbrev pub report {ℓ} : {A : Type ℓ} → ValidationError → A → Checked A
report e a = checked (e ∷ []) a

-- `self.types[id.index()]` and the like.
abbrev pub entry_at {ℓ} : {A : Type ℓ} → Option A → Checked A
entry_at none = panics
entry_at (some a) = pure a

-- `?`, and `get(..)` with an error where there is nothing.
abbrev pub when_some {ℓ κ} :
    {A : Type ℓ} {B : Type κ} → (A → Checked (Option B)) → Option A → Checked (Option B)
when_some f none = pure none
when_some f (some a) = f a

abbrev pub or_report {ℓ} : {A : Type ℓ} → ValidationError → Option A → Checked (Option A)
or_report e none = report e none
or_report e (some a) = pure (some a)
