-- ===== src/Midir/Validate/Clean.antt =====
-- A checking step that pushes no error: each of its parts pushes none.
use bet.Prelude.{
  ℕ, ◌≡◌, refl, ap, sym, Bool, true, false, Option, none, some, List, [], ◌∷◌, get_elem?,
}
use bet.Midir.Module.{Module, TyKind}
use bet.Midir.Validate.Report.{
  ValidationError, Checked, panics, checked, after, ◌>>=◌, pure, entry_at, when_some, or_report,
}
use bet.Midir.Validate.Places.{ty, known}
use bet.Midir.Validate.Values.{expect_that}

after-pure {ℓ} :
    {A : Type ℓ} (es : List ValidationError) (r : Checked A) (a : A)
    → after es r ≡ pure a
    → (es ≡ []) × (r ≡ pure a)
after-pure es panics a h = cc
after-pure [] (checked fs b) a h = (refl, h)
after-pure (e ∷ es) (checked fs b) a h = cc

module _ {ℓ κ} {A : Type ℓ} {B : Type κ} where
  pub bind-pure :
      (r : Checked A) (f : A → Checked B) (b : B)
      → (r >>= f) ≡ pure b
      → (a : A) × (r ≡ pure a) × (f a ≡ pure b)
  bind-pure panics f b h = cc
  bind-pure (checked es a) f b h =
      let k = after-pure es (f a) b h in
      (a, ap (λ (fs : List ValidationError). checked fs a) k.0, k.1)

  -- A lookup that panics or goes on.
  pub entry_at-pure :
      (o : Option A) (f : A → Checked B) (b : B)
      → (entry_at o >>= f) ≡ pure b
      → (a : A) × (o ≡ some a) × (f a ≡ pure b)
  entry_at-pure none f b h = cc
  entry_at-pure (some a) f b h = (a, refl, (after-pure [] (f a) b h).1)

  -- A lookup that is reported or goes on.
  pub or_report-pure :
      (e : ValidationError) (o : Option A) (f : A → Checked (Option B)) (b : Option B)
      → (or_report e o >>= when_some f) ≡ pure b
      → (a : A) × (o ≡ some a) × (f a ≡ pure b)
  or_report-pure e none f b h = cc
  or_report-pure e (some a) f b h = (a, refl, (after-pure [] (f a) b h).1)

pub known-pure :
    (m : Module) (t : ℕ) (o : Option TyKind)
    → known (ty m t) ≡ pure o
    → (k : TyKind) × (get_elem? m.types t ≡ some k) × (o ≡ some k)
known-pure m t o h =
    let r = entry_at-pure (get_elem? m.types t) (λ (k : TyKind). pure (some k)) o h in
    let e : some r.0 ≡ o = cc in (r.0, r.1, sym e)

pub expect_that-pure :
    (b : Bool) (e : ValidationError) (u : Unit {0}) → expect_that b e ≡ pure u → b ≡ true
expect_that-pure true e u h = refl
expect_that-pure false e u h = cc
