-- ===== src/Runtime/Cribs/Blocks.antt =====
-- The block of a handle: what its owner's thread gets of it, and what a write leaves there.
use bet.Prelude.{
  ℕ, zero, suc, ◌-◌, ◌<◌, ◌≡◌, refl, ap, ◌∙◌, true, Option, none, some, List, ◌==◌, length,
  get_elem?, set, get_elem?-set, get_elem?-lt-length, arith,
}
use bet.Runtime.Outcome.{done, ◌>>=◌, ◌>>◌, ThreadId, check_affinity}
use bet.Runtime.Memory.{SysAlloc}
use bet.Runtime.Cribs.{Crib, Arenas, block, found, crib_ref}

module _ (sys : SysAlloc) (me : ThreadId) (r : Arenas sys) (h : ℕ) (c : Crib) where
  pub crib_ref_own : block r.cribs h ≡ done c → c.owner ≡ me → crib_ref sys me r h ≡ done c
  unfolding crib_ref
  crib_ref_own e q = ap (λ o. o >>= λ c. check_affinity c.owner me >> done c) e ∙ rw same
    where
      same : (c.owner == me) ≡ true
      same = ground arith

-- A write of a handle's block, read back.
pub block-set_self :
    (cs : List (Option Crib)) (h : ℕ) (c d : Crib)
    → block cs h ≡ done c
    → block (set cs (h - 1) (some d)) h ≡ done d
unfolding block
block-set_self cs zero c d b = cc
block-set_self cs (suc h) c d b =
    let e : suc h - 1 ≡ h = omega arith in
    let lt = there (get_elem? cs h) refl b in
    let q : get_elem? (set cs h (some d)) h ≡ some (some d) =
      ground (arith, get_elem?-set cs h h (some d)) in
    rw e (ap found q)
  where
    there : (o : Option (Option Crib)) → get_elem? cs h ≡ o → found o ≡ done c → h < length cs
    there none q f = cc
    there (some v) q f = get_elem?-lt-length cs h v q
