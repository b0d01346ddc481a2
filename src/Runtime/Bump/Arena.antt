-- ===== src/Runtime/Bump/Arena.antt =====
-- The well-formedness of a bump crib, and that moving on to another chunk keeps it.
use bet.Prelude.{
  ℕ, zero, suc, ◌+◌, ◌-◌, ◌%◌, ◌^◌, ◌≤◌, ◌<◌, ◌≡◌, ◌≢◌, refl, sym, subst, ◌∙◌, true, Option, none,
  some, List, [], ◌∷◌, ◌==◌, ltb, if◌then◌else◌, get_elem?, length, max, arith, ◌⊎◌, inl, inr,
  Bool-cases, get_elem?-lt-length,
}
use bet.Prelude.Masks.{two_pow_pos}
use bet.Runtime.Memory.{SysAlloc, Apart, align_up, Granted, align_up_self, mod-max}
use bet.Runtime.Bump.{Chunk, BumpCrib, fits, insert, reusable, moved, wanted, spliced}

-- A chunk spliced in at a position that is in range moves the later ones up.
get_elem?-insert {ℓ} :
    {A : Type ℓ} (xs : List A) (i j : ℕ) (v : A)
    → i ≤ length xs
    → get_elem? (insert xs i v) j
      ≡ (if ltb j i then get_elem? xs j else if j == i then some v else get_elem? xs (j - 1))
get_elem?-insert [] zero zero v h = ground arith
get_elem?-insert [] zero (suc j) v h = ground arith
get_elem?-insert [] (suc i) j v h = elim h [ ]
get_elem?-insert (x ∷ xs) zero zero v h = ground arith
get_elem?-insert (x ∷ xs) zero (suc j) v h =
    let e : suc j - 1 ≡ j = omega arith in rw e (ground arith)
get_elem?-insert (x ∷ xs) (suc i) zero v h = ground arith
get_elem?-insert (x ∷ xs) (suc i) (suc zero) v h =
    ground (arith, get_elem?-insert xs i 0 v (omega arith))
get_elem?-insert (x ∷ xs) (suc i) (suc (suc j)) v h =
    let e : suc (suc j) - 1 ≡ suc j = omega arith in
    let e' : suc j - 1 ≡ j = omega arith in
    let ih = rw e' at (get_elem?-insert xs i (suc j) v (omega arith)) in rw e (ground (arith, ih))

-- A chunk of the spliced list is the fresh one or one of before.
data Spliced (b : BumpCrib) (n : Chunk) (i : ℕ) (c : Chunk) : Type 0 where
  fresh : i ≡ b.current + 1 → c ≡ n → Spliced b n i c
  old :
      (j : ℕ)
      → get_elem? b.chunks j ≡ some c
      → ((i ≡ j) × (j ≤ b.current)) ⊎ ((i ≡ j + 1) × (b.current < j))
      → Spliced b n i c

Spliced-cases :
    (b : BumpCrib) (n : Chunk) (i : ℕ) (c : Chunk)
    → b.current < length b.chunks
    → get_elem? (insert b.chunks (b.current + 1) n) i ≡ some c
    → Spliced b n i c
Spliced-cases b n i c lt e = elim (Bool-cases (ltb i (b.current + 1))) [
  | inl low ↦
      old i (ground (arith, get_elem?-insert b.chunks (b.current + 1) i n (omega arith)))
        (inl (refl, ground arith))
  | inr high ↦ elim (Bool-cases (i == b.current + 1)) [
    | inl here ↦
        fresh (ground arith)
          (ground (arith, get_elem?-insert b.chunks (b.current + 1) i n (omega arith)))
    | inr beyond ↦
        old (i - 1) (ground (arith, get_elem?-insert b.chunks (b.current + 1) i n (omega arith)))
          (inr (ground arith, ground arith))
  ]
]

-- The chunks end more than `align` bytes below 2^64, so that `align_up` in one of them does not wrap.
-- It adds without a check, so a chunk at the very end of the address space would be taken to have room
-- at address 0.
abbrev pub Clear : ℕ → BumpCrib → Type 0
Clear align b =
    (i : ℕ) (c : Chunk) → get_elem? b.chunks i ≡ some c → c.base + c.cap + align < 2 ^ 64

module _ (sys : SysAlloc) where
  -- Every chunk is memory in use, the chunks lie apart, and the bump offset is inside the active one.
  pub record IsArena (h : sys.Memory) (b : BumpCrib) : Type 0 where
    pub active : (c : Chunk) × (get_elem? b.chunks b.current ≡ some c) × (b.offset ≤ c.cap)
    pub held :
        (i : ℕ) (c : Chunk)
        → get_elem? b.chunks i ≡ some c
        → sys.InUse h c.base c.cap × (c.base + c.cap < 2 ^ 64)
    pub apart :
        (i j : ℕ) (c d : Chunk)
        → get_elem? b.chunks i ≡ some c
        → get_elem? b.chunks j ≡ some d
        → i ≢ j
        → Apart c.base c.cap d.base d.cap

  -- What holds of the crib after `advance`, against the crib before.
  pub record Advanced (size align : ℕ) (h : sys.Memory) (b : BumpCrib) (h' : sys.Memory)
      (b' : BumpCrib) : Type 0 where
    pub arena : IsArena h' b'
    pub next : b'.current ≡ b.current + 1
    pub start : b'.offset ≡ 0
    pub same : (i : ℕ) → i ≤ b.current → get_elem? b'.chunks i ≡ get_elem? b.chunks i
    pub room :
        (c : Chunk) × (get_elem? b'.chunks b'.current ≡ some c)
        × (fits (align_up c.base align) size c ≡ true)
        × (c.base + align < 2 ^ 64)

  current-lt : (h : sys.Memory) (b : BumpCrib) → IsArena h b → b.current < length b.chunks
  current-lt h b v = let (c, e, o) = v.active in get_elem?-lt-length b.chunks b.current c e

  -- Reusing the chunk that is already there.
  pub moved-Advanced :
      (h : sys.Memory) (b : BumpCrib) (size align : ℕ)
      → IsArena h b
      → Clear align b
      → reusable (get_elem? b.chunks (b.current + 1)) size align ≡ true
      → Advanced size align h b h (moved b)
  moved-Advanced h b size align v clear r = go (get_elem? b.chunks (b.current + 1)) refl r
    where
      go :
          (o : Option Chunk)
          → get_elem? b.chunks (b.current + 1) ≡ o
          → reusable o size align ≡ true
          → Advanced size align h b h (moved b)
      go none e z = cc
      go (some c) e z = record {
        arena = record { active = (c, e, omega arith); held = v.held; apart = v.apart };
        next = refl;
        start = refl;
        same = λ i _. refl;
        room = (c, e, z, let l = clear (b.current + 1) c e in omega arith);
      }

pub Apart-sym : (b m c n : ℕ) → Apart b m c n → Apart c n b m
Apart-sym b m c n (inl h) = inr h
Apart-sym b m c n (inr h) = inl h

-- Splicing in a fresh chunk that the system allocator has granted.
module _ (sys : SysAlloc) (h h' : sys.Memory) (b : BumpCrib) (size k p : ℕ) (lt : k < 64)
    (v : IsArena sys h b) (g : Granted sys h (wanted b size (2 ^ k)) (max (2 ^ k) 16) p h') where
  abbrev granted : Chunk
  granted = record { base = p; cap = wanted b size (2 ^ k); align = max (2 ^ k) 16 }

  granted_cap : max (wanted b size (2 ^ k)) 1 ≡ wanted b size (2 ^ k)
  granted_cap = omega (arith, two_pow_pos k)

  granted_held : sys.InUse h' p (wanted b size (2 ^ k)) × (p + wanted b size (2 ^ k) < 2 ^ 64)
  granted_held =
      (subst (sys.InUse h' p) granted_cap g.in_use, omega (arith, g.bounded, granted_cap))

  granted-Apart :
      (j : ℕ) (c : Chunk)
      → get_elem? b.chunks j ≡ some c
      → Apart c.base c.cap p (wanted b size (2 ^ k))
  granted-Apart j c e =
      subst (Apart c.base c.cap p) granted_cap (g.apart c.base c.cap (v.held j c e).0)

  Spliced-held :
      (i : ℕ) (c : Chunk)
      → Spliced b granted i c
      → sys.InUse h' c.base c.cap × (c.base + c.cap < 2 ^ 64)
  Spliced-held i c (fresh at e) =
      subst (λ (c : Chunk). sys.InUse h' c.base c.cap × (c.base + c.cap < 2 ^ 64)) (sym e)
        granted_held
  Spliced-held i c (old j e at) = (g.keeps c.base c.cap (v.held j c e).0, (v.held j c e).1)

  Spliced-Apart :
      (i j : ℕ) (c d : Chunk)
      → Spliced b granted i c
      → Spliced b granted j d
      → i ≢ j
      → Apart c.base c.cap d.base d.cap
  Spliced-Apart i j c d (fresh at e) (fresh at' e') ne = absurd (ne (at ∙ sym at'))
  Spliced-Apart i j c d (fresh at e) (old l q at') ne =
      subst (λ (c : Chunk). Apart c.base c.cap d.base d.cap) (sym e)
        (Apart-sym _ _ _ _ (granted-Apart l d q))
  Spliced-Apart i j c d (old m q at) (fresh at' e) ne =
      subst (λ (d : Chunk). Apart c.base c.cap d.base d.cap) (sym e) (granted-Apart m c q)
  Spliced-Apart i j c d (old m q at) (old l r at') ne = v.apart m l c d q r (λ e. ne (omega arith))

  -- A fresh chunk has room for its own alignment.
  granted_clear : p + 2 ^ k < 2 ^ 64
  granted_clear = omega (arith, g.small, g.bounded)

  granted_up : align_up p (2 ^ k) ≡ p
  granted_up =
      align_up_self p k lt granted_clear
        (mod-max p k (subst (λ (t : ℕ). p % t ≡ 0) (omega arith) g.aligned))

  granted_room : fits p size granted ≡ true
  granted_room = ground (arith, g.small, g.bounded, two_pow_pos k)

  granted_at : get_elem? (insert b.chunks (b.current + 1) granted) (b.current + 1) ≡ some granted
  granted_at = ground (
    arith,
    get_elem?-insert b.chunks (b.current + 1) (b.current + 1) granted,
    current-lt sys h b v,
  )

  pub spliced-Advanced : Advanced sys size (2 ^ k) h b h' (moved (spliced b granted))
  spliced-Advanced = record {
    arena = record {
      active = (granted, granted_at, omega arith);
      held = λ i c e. Spliced-held i c (Spliced-cases b granted i c (current-lt sys h b v) e);
      apart = λ i j c d e f.
          Spliced-Apart i j c d (Spliced-cases b granted i c (current-lt sys h b v) e)
            (Spliced-cases b granted j d (current-lt sys h b v) f);
    };
    next = refl;
    start = refl;
    same = λ i le.
        ground (arith, get_elem?-insert b.chunks (b.current + 1) i granted, current-lt sys h b v);
    room = (granted, granted_at, rw granted_up granted_room, granted_clear);
  }
