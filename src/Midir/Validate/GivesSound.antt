-- ===== src/Midir/Validate/GivesSound.antt =====
-- The type that the validator gives to an rvalue is the one of the rules.
use bet.Prelude.{
  ℕ, ◌≡◌, ◌≢◌, refl, sym, ap, ◌∙◌, Bool, true, false, ◌||◌, Option, some, List, get_elem?,
}
use bet.Midir.Ir.{Operand, BinOp, Rvalue, Func, CopInit}
use bet.Midir.Module.{
  Module, TyKind, bool_ty, void, raw_ptr, struct_ty, sum_ty, tag_ty, crib_ty, fn_ptr,
}
use bet.Midir.Validate.Report.{type_mismatch, bad_shape, Checked, ◌>>=◌, pure}
use bet.Midir.Validate.Places.{struct_def, sum_def, ty, known, const_kind, operand_kind, place_kind}
use bet.Midir.Validate.Values.{
  u64_kind, is_comparison, expect_that, agree, binary_kind, is_void, check_call_args, rets_to_kind,
  call_to, direct_call, extern_call, indirect_call, call_kind, check_cop_init, cop_kind, cop_elem,
  rvalue_kind, visit_args,
}
use bet.Midir.Validate.Clean.{bind-pure, entry_at-pure}
use bet.Midir.Validate.PlaceComplete.{HasKind-place_kind}
use bet.Midir.Validate.Typing.{Is}
use bet.Midir.Validate.Gives.{
  Compares, eq_compares, ne_compares, lt_compares, le_compares, gt_compares, ge_compares, Combines,
  add_combines, sub_combines, mul_combines, div_combines, rem_combines, and_combines, or_combines,
  xor_combines, shl_combines, shr_combines, Returns, no_value, one_value, more_values, OperandKind,
  int_kind, float_kind, bool_kind, str_kind, copy_kind, moved_kind, Gives, use_gives, compare_gives,
  combine_gives, not_gives, neg_gives, bit_not_gives, cast_gives, direct_gives, extern_gives,
  indirect_gives, struct_gives, sum_gives, array_gives, simd_of_gives, simd_gives, cop_gives,
  trust_gives, str_ptr_gives, str_len_gives, slice_ptr_gives, slice_len_gives, addr_gives,
  make_slice_gives, crib_new_gives, crib_global_gives, size_of_gives, make_str_gives,
}

module _ (m : Module) (f : Func) where
  OperandKind-operand_kind :
      (op : Operand) (k : TyKind) → OperandKind m f op k → operand_kind m f op ≡ pure (some k)
  unfolding operand_kind const_kind
  OperandKind-operand_kind op k (int_kind n t _ z) = rw z refl
  OperandKind-operand_kind op k (float_kind x t _ z) = rw z refl
  OperandKind-operand_kind op k (bool_kind b) = refl
  OperandKind-operand_kind op k (str_kind s) = refl
  OperandKind-operand_kind op k (copy_kind p _ h) = HasKind-place_kind m f p k h
  OperandKind-operand_kind op k (moved_kind p _ h) = HasKind-place_kind m f p k h

  -- An operand of a known kind that is checked first.
  pub known_first {ℓ} :
      {B : Type ℓ} (op : Operand) (k : TyKind) (g : Option TyKind → Checked B) (b : B)
      → OperandKind m f op k
      → (operand_kind m f op >>= g) ≡ pure b
      → g (some k) ≡ pure b
  known_first op k g b p h =
      let a = bind-pure (operand_kind m f op) g b h in
      let e : some k ≡ a.0 = let q = OperandKind-operand_kind op k p in cc in ap g e ∙ a.2

  ty_first {ℓ} :
      {B : Type ℓ} (t : ℕ) (k : TyKind) (g : TyKind → Checked B) (b : B)
      → Is m t k
      → (ty m t >>= g) ≡ pure b
      → g k ≡ pure b
  ty_first t k g b p h =
      let a = entry_at-pure (get_elem? m.types t) g b h in let e : k ≡ a.0 = cc in ap g e ∙ a.2

  Compares-binary_kind :
      (op : BinOp) (k : Option TyKind) → Compares op → binary_kind op k ≡ some bool_ty
  Compares-binary_kind op k eq_compares = refl
  Compares-binary_kind op k ne_compares = refl
  Compares-binary_kind op k lt_compares = refl
  Compares-binary_kind op k le_compares = refl
  Compares-binary_kind op k gt_compares = refl
  Compares-binary_kind op k ge_compares = refl

  Combines-binary_kind : (op : BinOp) (k : Option TyKind) → Combines op → binary_kind op k ≡ k
  Combines-binary_kind op k add_combines = refl
  Combines-binary_kind op k sub_combines = refl
  Combines-binary_kind op k mul_combines = refl
  Combines-binary_kind op k div_combines = refl
  Combines-binary_kind op k rem_combines = refl
  Combines-binary_kind op k and_combines = refl
  Combines-binary_kind op k or_combines = refl
  Combines-binary_kind op k xor_combines = refl
  Combines-binary_kind op k shl_combines = refl
  Combines-binary_kind op k shr_combines = refl

  -- A result after a part that only reports.
  last_of {ℓ κ} :
      {A : Type ℓ} {B : Type κ} (r : Checked A) (x b : B) → (r >>= λ _. pure x) ≡ pure b → b ≡ x
  last_of r x b h = let a = bind-pure r (λ _. pure x) b h in let e : x ≡ b = cc in sym e

  Returns-rets_to_kind : (ts : List ℕ) (k : TyKind) → Returns m ts k → rets_to_kind m f ts ≡ pure k
  Returns-rets_to_kind ts k no_value = refl
  Returns-rets_to_kind ts k (one_value t _ z) = rw z refl
  Returns-rets_to_kind ts k (more_values t u us) = refl

  call_to-Returns :
      (params rets : List ℕ) (args : List Operand) (o : Option TyKind) (k : TyKind)
      → call_to m f params rets args ≡ pure o
      → Returns m rets k
      → o ≡ some k
  call_to-Returns params rets args o k h r =
      let a =
        bind-pure (check_call_args m f params args) (λ u. known (rets_to_kind m f rets)) o h in
      let e : known (rets_to_kind m f rets) ≡ pure (some k) =
        ap known (Returns-rets_to_kind rets k r) in
      cc

  cop_elem_lem :
      (init : CopInit) (e : ℕ) (k : TyKind) → k ≢ void → cop_elem m f init e k ≡ some (tag_ty e)
  cop_elem_lem init e k p = go (is_void k) refl
    where
      void_only : (x : TyKind) → is_void x ≡ true → x ≡ void
      void_only void q = refl
      void_only other q = cc

      go : (b : Bool) → is_void k ≡ b → cop_elem m f init e k ≡ some (tag_ty e)
      go true q = elim (p (void_only k q)) [ ]
      go false q = rw q refl

  -- A clean rvalue with a type by the rules is given that type.
  pub rvalue_kind-Gives :
      (rv : Rvalue) (o : Option TyKind) (k : TyKind)
      → rvalue_kind m f rv ≡ pure o
      → Gives m f rv k
      → o ≡ some k
  unfolding rvalue_kind call_kind
  rvalue_kind-Gives rv o k h (use_gives op _ p) = let e = OperandKind-operand_kind op k p in cc
  rvalue_kind-Gives rv o k h (compare_gives op a b mode p) =
      let x = bind-pure (operand_kind m f a) _ o h in
      let y = bind-pure (operand_kind m f b) _ o x.2 in
      let z =
        bind-pure (expect_that (agree x.0 y.0 || is_comparison op) (type_mismatch f.name)) _ o
          y.2 in
      last_of _ (binary_kind op x.0) o z.2 ∙ Compares-binary_kind op x.0 p
  rvalue_kind-Gives rv o k h (combine_gives op a b mode _ p q) =
      let x = known_first a k _ o q h in
      let y = bind-pure (operand_kind m f b) _ o x in
      let z =
        bind-pure (expect_that (agree (some k) y.0 || is_comparison op) (type_mismatch f.name)) _ o
          y.2 in
      last_of _ (binary_kind op (some k)) o z.2 ∙ Combines-binary_kind op (some k) p
  rvalue_kind-Gives rv o k h (not_gives a) = last_of (operand_kind m f a) (some bool_ty) o h
  rvalue_kind-Gives rv o k h (neg_gives a _ p) =
      let x = known_first a k (λ ka. pure ka) o p h in let e : some k ≡ o = cc in sym e
  rvalue_kind-Gives rv o k h (bit_not_gives a _ p) =
      let x = known_first a k (λ ka. pure ka) o p h in let e : some k ≡ o = cc in sym e
  rvalue_kind-Gives rv o k h (cast_gives op t kind _ p) =
      let x = bind-pure (operand_kind m f op) _ o h in last_of _ (some k) o (ty_first t k _ o p x.2)
  rvalue_kind-Gives rv o k h (direct_gives id args g _ p r) =
      call_to-Returns g.params g.rets args o k (sym (ap (direct_call m f args) p) ∙ h) r
  rvalue_kind-Gives rv o k h (extern_gives id args e _ p r) =
      call_to-Returns e.sig.params e.sig.rets args o k (sym (ap (extern_call m f args) p) ∙ h) r
  rvalue_kind-Gives rv o k h (indirect_gives op args id s _ p q r) =
      let x = known_first op (fn_ptr id) (indirect_call m f args) o p h in
      let y = entry_at-pure (get_elem? m.sigs id) (λ c. call_to m f c.params c.rets args) o x in
      let e : y.0 ≡ s = cc in
      call_to-Returns s.params s.rets args o k
        (sym (ap (λ c. call_to m f c.params c.rets args) e) ∙ y.2) r
  rvalue_kind-Gives rv o k h (struct_gives id ops) =
      let x = bind-pure (visit_args m f ops) _ o h in
      let y = bind-pure (struct_def m f.name id) _ o x.2 in last_of _ (some (struct_ty id)) o y.2
  rvalue_kind-Gives rv o k h (sum_gives id v ops) =
      let x = bind-pure (visit_args m f ops) _ o h in
      let y = bind-pure (sum_def m f.name id) _ o x.2 in last_of _ (some (sum_ty id)) o y.2
  rvalue_kind-Gives rv o k h (array_gives e ops) = last_of (visit_args m f ops) _ o h
  rvalue_kind-Gives rv o k h (simd_of_gives e ops) = last_of (visit_args m f ops) _ o h
  rvalue_kind-Gives rv o k h (simd_gives op args t _ p) =
      let x = bind-pure (visit_args m f args) _ o h in
      let y = bind-pure (expect_that _ (bad_shape f.name)) (λ w. known (ty m t)) o x.2 in
      let z = ty_first t k (λ c. pure (some c)) o p y.2 in let e : some k ≡ o = cc in sym e
  rvalue_kind-Gives rv o k h (cop_gives crib init e t p q n) =
      let x = known_first crib (crib_ty e) _ o p h in
      let y = bind-pure (check_cop_init m f init) (λ u. cop_kind m f init (some (crib_ty e))) o x in
      let z = ty_first e t (λ c. pure (cop_elem m f init e c)) o q y.2 in
      let w : cop_elem m f init e t ≡ o = cc in sym w ∙ cop_elem_lem init e t n
  rvalue_kind-Gives rv o k h (trust_gives crib tag e p) =
      let x = known_first crib (crib_ty e) _ o p h in last_of (operand_kind m f tag) _ o x
  rvalue_kind-Gives rv o k h (str_ptr_gives op) =
      let x = bind-pure (operand_kind m f op) _ o h in last_of _ (some raw_ptr) o x.2
  rvalue_kind-Gives rv o k h (str_len_gives op) =
      let x = bind-pure (operand_kind m f op) _ o h in last_of _ (some u64_kind) o x.2
  rvalue_kind-Gives rv o k h (slice_ptr_gives op) =
      let x = bind-pure (operand_kind m f op) _ o h in last_of _ (some raw_ptr) o x.2
  rvalue_kind-Gives rv o k h (slice_len_gives op) =
      let x = bind-pure (operand_kind m f op) _ o h in last_of _ (some u64_kind) o x.2
  rvalue_kind-Gives rv o k h (addr_gives p) = last_of (place_kind m f p) (some raw_ptr) o h
  rvalue_kind-Gives rv o k h (make_slice_gives d n e) =
      let x = bind-pure (operand_kind m f d) _ o h in last_of (operand_kind m f n) _ o x.2
  rvalue_kind-Gives rv o k h (crib_new_gives e capacity) = let p : some k ≡ o = cc in sym p
  rvalue_kind-Gives rv o k h (crib_global_gives id g p) =
      let x = entry_at-pure (get_elem? m.crib_globals id) (λ c. pure (some (crib_ty c.elem))) o h in
      let e : x.0 ≡ g = cc in
      let w : some (crib_ty x.0.elem) ≡ o = cc in sym w ∙ ap (λ c. some (crib_ty c.elem)) e
  rvalue_kind-Gives rv o k h (size_of_gives t) = let p : some k ≡ o = cc in sym p
  rvalue_kind-Gives rv o k h (make_str_gives d n) =
      let x = bind-pure (operand_kind m f d) _ o h in last_of (operand_kind m f n) _ o x.2
