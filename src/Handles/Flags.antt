-- ===== src/Handles/Flags.antt =====
-- A store of tags beside the flags of the tags that it handed out: each request keeps them in step.
use bet.Prelude.{
  ℕ, zero, suc, ◌≡◌, refl, ap, sym, ◌∙◌, subst, Bool, true, false, ◌&&◌, Option, none, some, List,
  [], ◌∷◌, get_elem?,
}
use bet.Handles.{TagStore, free_at, ask, lower, flag, all_false}

module _ (T : TagStore) where
  abbrev pub Entries : Type 0
  Entries = List (T.Tag × Bool)

  abbrev pub tags : Entries → List T.Tag
  tags [] = []
  tags (e ∷ es) = e.0 ∷ tags es

  abbrev pub flags : Entries → List Bool
  flags [] = []
  flags (e ∷ es) = e.1 ∷ flags es

  abbrev pub Status : ℕ → T.Store → T.Tag → Bool → Type 0
  Status n s t true = T.alive s t ≡ true
  Status n s t false = T.Gone n s t

  -- Of two tags that are alive each is another.
  abbrev pub Apart : T.Tag → Bool → Entries → Type 0
  Apart t b [] = Unit
  Apart t b (e ∷ es) = ((b && (e.1 && T.same t e.0)) ≡ false) × Apart t b es

  abbrev pub Rel : ℕ → T.Store → Entries → Type 0
  Rel n s [] = Unit
  Rel n s (e ∷ es) = Status n s e.0 e.1 × Apart e.0 e.1 es × Rel n s es

  pub Status-alive : (n : ℕ) (s : T.Store) (t : T.Tag) (b : Bool) → Status n s t b → T.alive s t ≡ b
  Status-alive n s t true h = h
  Status-alive n s t false h = T.Gone-dead n s t h

  -- `cop`: every entry keeps its status, and is another tag.
  pub copped :
      (n : ℕ) (s s' : T.Store) (t : T.Tag)
      → ((u : T.Tag) → T.alive s u ≡ true → (T.alive s' u ≡ true) × (T.same t u ≡ false))
      → ((u : T.Tag) → T.Gone (suc n) s u → T.Gone n s' u)
      → (es : Entries) → Rel (suc n) s es
      → Rel n s' es × Apart t true es
  copped n s s' t a g [] h = (tt, tt)
  copped n s s' t a g ((u, true) ∷ es) h =
      let ih = copped n s s' t a g es h.2 in let k = a u h.0 in ((k.0, h.1, ih.0), (k.1, ih.1))
  copped n s s' t a g ((u, false) ∷ es) h =
      let ih = copped n s s' t a g es h.2 in ((g u h.0, h.1, ih.0), (refl, ih.1))

  abbrev pub none_left : Entries → Entries
  none_left [] = []
  none_left (e ∷ es) = (e.0, false) ∷ none_left es

  pub Apart-false : (t : T.Tag) (es : Entries) → Apart t false es
  Apart-false t [] = tt
  Apart-false t (e ∷ es) = (refl, Apart-false t es)

  pub evicted :
      (n : ℕ) (s s' : T.Store)
      → ((u : T.Tag) → T.alive s u ≡ true → T.Gone n s' u)
      → ((u : T.Tag) → T.Gone (suc n) s u → T.Gone n s' u)
      → (es : Entries) → Rel (suc n) s es
      → Rel n s' (none_left es)
  evicted n s s' a g [] h = tt
  evicted n s s' a g ((u, true) ∷ es) h =
      (a u h.0, Apart-false u (none_left es), evicted n s s' a g es h.2)
  evicted n s s' a g ((u, false) ∷ es) h =
      (g u h.0, Apart-false u (none_left es), evicted n s s' a g es h.2)

  pub flags-none_left : (es : Entries) → flags (none_left es) ≡ all_false (flags es)
  flags-none_left [] = refl
  flags-none_left (e ∷ es) = ap (λ (bs : List Bool). false ∷ bs) (flags-none_left es)

  pub tags-none_left : (es : Entries) → tags (none_left es) ≡ tags es
  tags-none_left [] = refl
  tags-none_left (e ∷ es) = ap (λ (ts : List T.Tag). e.0 ∷ ts) (tags-none_left es)

  pub Rel-weaken : (n : ℕ) (s : T.Store) (es : Entries) → Rel (suc n) s es → Rel n s es
  Rel-weaken n s [] h = tt
  Rel-weaken n s ((u, true) ∷ es) h = (h.0, h.1, Rel-weaken n s es h.2)
  Rel-weaken n s ((u, false) ∷ es) h = (T.Gone-weaken n s u h.0, h.1, Rel-weaken n s es h.2)

  -- The freeing of one tag.
  abbrev pub lowered : Entries → ℕ → Entries
  lowered [] k = []
  lowered (e ∷ es) zero = (e.0, false) ∷ es
  lowered (e ∷ es) (suc k) = e ∷ lowered es k

  pub flags-lowered : (es : Entries) (k : ℕ) → flags (lowered es k) ≡ lower (flags es) k
  flags-lowered [] k = refl
  flags-lowered (e ∷ es) zero = refl
  flags-lowered (e ∷ es) (suc k) = ap (λ (bs : List Bool). e.1 ∷ bs) (flags-lowered es k)

  pub tags-lowered : (es : Entries) (k : ℕ) → tags (lowered es k) ≡ tags es
  tags-lowered [] k = refl
  tags-lowered (e ∷ es) zero = refl
  tags-lowered (e ∷ es) (suc k) = ap (λ (ts : List T.Tag). e.0 ∷ ts) (tags-lowered es k)

  pub Apart-lowered :
      (t : T.Tag) (b : Bool) (es : Entries) (k : ℕ) → Apart t b es → Apart t b (lowered es k)
  Apart-lowered t b [] k h = tt
  Apart-lowered t true (e ∷ es) zero h = (refl, h.1)
  Apart-lowered t false (e ∷ es) zero h = (refl, h.1)
  Apart-lowered t b (e ∷ es) (suc k) h = (h.0, Apart-lowered t b es k h.1)

  module _ (n : ℕ) (s s' : T.Store) (t : T.Tag)
      (keeps : (u : T.Tag) → T.alive s u ≡ true → T.same t u ≡ false → T.alive s' u ≡ true)
      (gone : (u : T.Tag) → T.Gone (suc n) s u → T.Gone n s' u) where
    others : (es : Entries) → Apart t true es → Rel (suc n) s es → Rel n s' es
    others [] a h = tt
    others ((u, true) ∷ es) a h = (keeps u h.0 a.0, h.1, others es a.1 h.2)
    others ((u, false) ∷ es) a h = (gone u h.0, h.1, others es a.1 h.2)

    freed_one :
        T.Gone n s' t
        → (es : Entries) (k : ℕ) → get_elem? es k ≡ some (t, true)
        → Rel (suc n) s es
        → Rel n s' (lowered es k)
    freed_one d [] k e h = cc
    freed_one d (x ∷ es) zero e h =
        let q : x ≡ (t, true) = cc in
        let a : Apart t true es = subst (λ (y : T.Tag × Bool). Apart y.0 y.1 es) q h.1 in
        let g : T.Gone n s' x.0 = subst (λ (y : T.Tag × Bool). T.Gone n s' y.0) (sym q) d in
        (g, Apart-false x.0 es, others es a h.2)
    freed_one d ((u, true) ∷ es) (suc k) e h = (
      keeps u h.0 (T.same_sym t u ∙ apart_at es k h.1 e),
      Apart-lowered u true es k h.1,
      freed_one d es k e h.2,
    )
      where
        apart_at :
            (es : Entries) (k : ℕ)
            → Apart u true es
            → get_elem? es k ≡ some (t, true)
            → T.same u t ≡ false
        apart_at [] k a e = cc
        apart_at (x ∷ es) zero a e =
            let q : x ≡ (t, true) = cc in
            subst (λ (y : T.Tag × Bool). (y.1 && T.same u y.0) ≡ false) q a.0
        apart_at (x ∷ es) (suc k) a e = apart_at es k a.1 e
    freed_one d ((u, false) ∷ es) (suc k) e h =
        (gone u h.0, Apart-lowered u false es k h.1, freed_one d es k e h.2)

  pub lowered_beyond : (es : Entries) (k : ℕ) → get_elem? es k ≡ none → lowered es k ≡ es
  lowered_beyond [] k h = refl
  lowered_beyond (e ∷ es) zero h = cc
  lowered_beyond (e ∷ es) (suc k) h = ap (λ (r : Entries). e ∷ r) (lowered_beyond es k h)

  pub lowered_dead :
      (es : Entries) (k : ℕ) (t : T.Tag) → get_elem? es k ≡ some (t, false) → lowered es k ≡ es
  lowered_dead [] k t h = refl
  lowered_dead (e ∷ es) zero t h =
      let q : e ≡ (t, false) = cc in
      ap (λ (y : T.Tag × Bool). (e.0, false) ∷ es) q
      ∙ ap (λ (b : Bool). (e.0, b) ∷ es) (sym (ap (λ (y : T.Tag × Bool). y.1) q))
  lowered_dead (e ∷ es) (suc k) t h = ap (λ (r : Entries). e ∷ r) (lowered_dead es k t h)

  abbrev pub first : Option (T.Tag × Bool) → Option T.Tag
  first none = none
  first (some e) = some e.0

  abbrev pub second : Option (T.Tag × Bool) → Option Bool
  second none = none
  second (some e) = some e.1

  pub get_elem?-tags : (es : Entries) (k : ℕ) → get_elem? (tags es) k ≡ first (get_elem? es k)
  get_elem?-tags [] k = refl
  get_elem?-tags (e ∷ es) zero = refl
  get_elem?-tags (e ∷ es) (suc k) = get_elem?-tags es k

  pub get_elem?-flags : (es : Entries) (k : ℕ) → get_elem? (flags es) k ≡ second (get_elem? es k)
  get_elem?-flags [] k = refl
  get_elem?-flags (e ∷ es) zero = refl
  get_elem?-flags (e ∷ es) (suc k) = get_elem?-flags es k

  pub Rel-at :
      (n : ℕ) (s : T.Store) (es : Entries) (k : ℕ) (t : T.Tag) (b : Bool)
      → Rel n s es
      → get_elem? es k ≡ some (t, b)
      → T.alive s t ≡ b
  Rel-at n s [] k t b h e = cc
  Rel-at n s (x ∷ es) zero t b h e =
      let q : x ≡ (t, b) = cc in
      subst (λ (y : T.Tag × Bool). T.alive s y.0 ≡ y.1) q (Status-alive n s x.0 x.1 h.0)
  Rel-at n s (x ∷ es) (suc k) t b h e = Rel-at n s es k t b h.2 e

  pub asked :
      (n : ℕ) (s : T.Store) (es : Entries) (k : ℕ)
      → Rel n s es
      → ask T s (get_elem? (tags es) k) ≡ flag (get_elem? (flags es) k)
  asked n s es k h =
      ap (ask T s) (get_elem?-tags es k)
      ∙ go (get_elem? es k) refl
      ∙ sym (ap flag (get_elem?-flags es k))
    where
      go : (o : Option (T.Tag × Bool)) → get_elem? es k ≡ o → ask T s (first o) ≡ flag (second o)
      go none e = refl
      go (some (t, b)) e = Rel-at n s es k t b h e

  pub freed :
      (n : ℕ) (s : T.Store) (es : Entries) (k : ℕ)
      → T.Room (suc n) s
      → Rel (suc n) s es
      → T.Room n (free_at T s (get_elem? (tags es) k))
        × Rel n (free_at T s (get_elem? (tags es) k)) (lowered es k)
  freed n s es k r h =
      subst (λ (o : Option T.Tag). T.Room n (free_at T s o) × Rel n (free_at T s o) (lowered es k))
        (sym (get_elem?-tags es k)) (go (get_elem? es k) refl)
    where
      go :
          (o : Option (T.Tag × Bool))
          → get_elem? es k ≡ o
          → T.Room n (free_at T s (first o)) × Rel n (free_at T s (first o)) (lowered es k)
      go none e =
          (T.Room-weaken n s r, subst (Rel n s) (sym (lowered_beyond es k e)) (Rel-weaken n s es h))
      go (some (t, true)) e =
          let l = T.evict_one_law n s t r (Rel-at (suc n) s es k t true h e) in
          (l.0, freed_one n s (T.evict_one t s) t l.2 l.3 l.1 es k e h)
      go (some (t, false)) e =
          let q = T.stale_law n s t r (Rel-at (suc n) s es k t false h e) in
          subst (λ (x : T.Store). T.Room n x × Rel n x (lowered es k)) (sym q)
            (
              T.Room-weaken n s r,
              subst (Rel n s) (sym (lowered_dead es k t e)) (Rel-weaken n s es h),
            )
