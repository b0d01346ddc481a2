-- ===== src/Midir/Module/Interning.antt =====
-- The tables of interned types and signatures: an id stands for one kind, and a kind for one id.
use bet.Prelude.{
  ℕ, zero, suc, ◌^◌, ◌%◌, ◌<◌, ◌≡◌, refl, ap, sym, ◌∙◌, subst, Bool, true, false, Option, none,
  some, List, [], ◌∷◌, ◌++◌, length, get_elem?, if◌then◌else◌, arith, Bool-cases, inl, inr, ◌⊎◌,
}
use bet.Midir.Module.{
  TyKind, TyKind-discrete, Sig, Sig-discrete, Module, new_module, holds, id_of, interned, intern,
  intern_ty, intern_sig,
}

module _ {ℓ} {K : Type ℓ} (eq : Discrete K) where
  holds-eq : (a b : K) → holds (eq a b) ≡ true → a ≡ b
  holds-eq a b = decided (eq a b)
    where
      decided : (d : Dec (a ≡ b)) → holds d ≡ true → a ≡ b
      decided (yes p) h = p
      decided (no n) h = let never : false ≡ true = h in cc

  holds_refl : (a : K) → holds (eq a a) ≡ true
  holds_refl a = decided (eq a a)
    where
      decided : (d : Dec (a ≡ a)) → holds d ≡ true
      decided (yes p) = refl
      decided (no n) = let bad : ⊥ = n refl in elim bad [ ]

  -- The map and the table say the same.
  pub record Agrees (items : List K) (dedup : List (K × ℕ)) : Type ℓ where
    pub named : (k : K) (id : ℕ) → id_of eq dedup k ≡ some id → get_elem? items id ≡ some k
    pub found : (k : K) (id : ℕ) → get_elem? items id ≡ some k → id_of eq dedup k ≡ some id

  get_elem?-append :
      (items : List K) (k : K) (id : ℕ) (x : K)
      → get_elem? items id ≡ some x
      → get_elem? (items ++ k ∷ []) id ≡ some x
  get_elem?-append [] k id x h = cc
  get_elem?-append (y ∷ items) k zero x h = h
  get_elem?-append (y ∷ items) k (suc id) x h = get_elem?-append items k id x h

  get_elem?-last : (items : List K) (k : K) → get_elem? (items ++ k ∷ []) (length items) ≡ some k
  get_elem?-last [] k = refl
  get_elem?-last (y ∷ items) k = get_elem?-last items k

  -- A read of the longer table is a read of the old one, or of the new entry.
  old_or_last :
      (items : List K) (k : K) (id : ℕ) (x : K)
      → get_elem? (items ++ k ∷ []) id ≡ some x
      → (get_elem? items id ≡ some x) ⊎ ((id ≡ length items) × (k ≡ x))
  old_or_last [] k zero x h = inr (refl, cc)
  old_or_last [] k (suc id) x h = inl h
  old_or_last (y ∷ items) k zero x h = inl h
  old_or_last (y ∷ items) k (suc id) x h = elim (old_or_last items k id x h) [
    | inl old ↦ inl old
    | inr last ↦ inr (ap suc last.0, last.1)
  ]

  -- What interning does, for the three parts that it gives.
  unfoldable pub Interns : List K → K → ℕ × List K × List (K × ℕ) → Type ℓ
  Interns items k r =
      (get_elem? r.1 r.0 ≡ some k)
      × ((id : ℕ) (x : K) → get_elem? items id ≡ some x → get_elem? r.1 id ≡ some x)
      × Agrees r.1 r.2
      × (intern eq r.1 r.2 k ≡ r)

  module _ (items : List K) (dedup : List (K × ℕ)) (k : K) where
    fresh-Agrees :
        Agrees items dedup
        → id_of eq dedup k ≡ none
        → Agrees (items ++ k ∷ []) ((k, length items) ∷ dedup)
    fresh-Agrees a e = record { named = named_one; found = found_one }
      where
        named_one :
            (x : K) (id : ℕ)
            → id_of eq ((k, length items) ∷ dedup) x ≡ some id
            → get_elem? (items ++ k ∷ []) id ≡ some x
        named_one x id h = elim (Bool-cases (holds (eq k x))) [
          | inl hit ↦
              (let same : k ≡ x = holds-eq k x hit in
                let at : some (length items) ≡ some id =
                  sym (ap (λ (b : Bool). if b then some (length items) else id_of eq dedup x) hit)
                  ∙ h in
                let id_is : length items ≡ id = cc in
                subst (λ (i : ℕ). get_elem? (items ++ k ∷ []) i ≡ some x) id_is
                  (get_elem?-last items k ∙ ap some same))
          | inr miss ↦ get_elem?-append items k id x (
              a.named x id (
                sym (ap (λ (b : Bool). if b then some (length items) else id_of eq dedup x) miss)
                ∙ h))
        ]

        found_one :
            (x : K) (id : ℕ)
            → get_elem? (items ++ k ∷ []) id ≡ some x
            → id_of eq ((k, length items) ∷ dedup) x ≡ some id
        found_one x id h = elim (old_or_last items k id x h) [
          | inl old ↦ elim (Bool-cases (holds (eq k x))) [
            | inl hit ↦
                (let same : k ≡ x = holds-eq k x hit in
                  let twice : none ≡ some id =
                    sym e ∙ ap (id_of eq dedup) same ∙ a.found x id old in
                  cc)
            | inr miss ↦
                ap (λ (b : Bool). if b then some (length items) else id_of eq dedup x) miss
                ∙ a.found x id old
          ]
          | inr last ↦
              (let hit : holds (eq k x) ≡ true =
                  subst (λ (y : K). holds (eq k y) ≡ true) last.1 (holds_refl k) in
                ap (λ (b : Bool). if b then some (length items) else id_of eq dedup x) hit
                ∙ ap some (sym last.0))
        ]

    intern-Interns :
        length items < 2 ^ 32 → Agrees items dedup → Interns items k (intern eq items dedup k)
    unfolding intern Interns
    intern-Interns small a = by_id (id_of eq dedup k) refl
      where
        by_id :
            (o : Option ℕ)
            → id_of eq dedup k ≡ o
            → (get_elem? (interned items dedup k o).1 (interned items dedup k o).0 ≡ some k)
              × ((id : ℕ) (x : K)
                  → get_elem? items id ≡ some x
                  → get_elem? (interned items dedup k o).1 id ≡ some x)
              × Agrees (interned items dedup k o).1 (interned items dedup k o).2
              × (interned
                    (interned items dedup k o).1
                    (interned items dedup k o).2
                    k
                    (id_of eq (interned items dedup k o).2 k)
                  ≡ interned items dedup k o)
        by_id (some id) e = (a.named k id e, λ j x h. h, a, ap (interned items dedup k) e)
        by_id none e =
            let id_is : length items % 2 ^ 32 ≡ length items = omega arith in
            let made =
              subst (λ (i : ℕ). Agrees (items ++ k ∷ []) ((k, i) ∷ dedup)) (sym id_is)
                (fresh-Agrees a e) in
            let there =
              subst (λ (i : ℕ). get_elem? (items ++ k ∷ []) i ≡ some k) (sym id_is)
                (get_elem?-last items k) in
            (
              there,
              λ id x h. get_elem?-append items k id x h,
              made,
              ap (interned (items ++ k ∷ []) ((k, length items % 2 ^ 32) ∷ dedup) k)
                  (made.found k (length items % 2 ^ 32) there),
            )

-- The tables of a module agree with their maps.
unfoldable pub IsModule : Module → Type 0
IsModule m = Agrees TyKind-discrete m.types m.type_dedup × Agrees Sig-discrete m.sigs m.sig_dedup

-- In a module whose tables agree with their maps and that has fewer than 2^32 types, `intern_ty` gives
-- an id that stands for the type; every id of before stands for the same type as it did, the tables
-- agree with their maps, and interning the type again gives the same id and changes nothing.
pub intern_ty_lem :
    (m : Module) (k : TyKind)
    → length m.types < 2 ^ 32
    → IsModule m
    → (get_elem? (intern_ty m k).1.types (intern_ty m k).0 ≡ some k)
      × ((id : ℕ) (x : TyKind)
          → get_elem? m.types id ≡ some x
          → get_elem? (intern_ty m k).1.types id ≡ some x)
      × IsModule (intern_ty m k).1
      × (intern_ty (intern_ty m k).1 k ≡ intern_ty m k)
unfolding intern_ty Interns IsModule
intern_ty_lem m k small v =
    let i = intern-Interns TyKind-discrete m.types m.type_dedup k small v.0 in
    (
      i.0,
      i.1,
      (i.2, v.1),
      ap
          (λ (r : ℕ × List TyKind × List (TyKind × ℕ)).
            (r.0, record m { types = r.1; type_dedup = r.2 }))
          i.3,
    )

-- In a module whose tables agree with their maps and that has fewer than 2^32 signatures, `intern_sig`
-- gives an id that stands for the signature; every id of before stands for the same signature as it
-- did, the tables agree with their maps, and interning it again gives the same id and changes nothing.
pub intern_sig_lem :
    (m : Module) (k : Sig)
    → length m.sigs < 2 ^ 32
    → IsModule m
    → (get_elem? (intern_sig m k).1.sigs (intern_sig m k).0 ≡ some k)
      × ((id : ℕ) (x : Sig)
          → get_elem? m.sigs id ≡ some x
          → get_elem? (intern_sig m k).1.sigs id ≡ some x)
      × IsModule (intern_sig m k).1
      × (intern_sig (intern_sig m k).1 k ≡ intern_sig m k)
unfolding intern_sig Interns IsModule
intern_sig_lem m k small v =
    let i = intern-Interns Sig-discrete m.sigs m.sig_dedup k small v.1 in
    (
      i.0,
      i.1,
      (v.0, i.2),
      ap (λ (r : ℕ × List Sig × List (Sig × ℕ)). (r.0, record m { sigs = r.1; sig_dedup = r.2 }))
          i.3,
    )

-- A new module has empty tables, which agree.
pub new_module-IsModule : IsModule new_module
unfolding IsModule
new_module-IsModule = (
  record { named = λ k id h. cc; found = λ k id h. cc },
  record { named = λ k id h. cc; found = λ k id h. cc },
)
