-- ===== src/Runtime/Cribs.antt =====
-- The crib entry points of crates/runtime/src/lib.rs. The control blocks that `Box` allocates are a
-- list: the handle n + 1 names the n-th, 0 is the null handle. A handle that names no block, or one
-- that was freed, is outside the contract of the entry points: `dangling`.
pub mod Blocks
pub mod Scratch
use mathlib.Core.Option
use bet.Prelude.{
  ℕ, zero, suc, ◌+◌, ◌-◌, ◌*◌, ◌^◌, ◌≡◌, Bool, true, false, Option, none, some, List, [], ◌∷◌, ◌++◌,
  ◌==◌, if◌then◌else◌, length, get_elem?, set, max, min,
}
use bet.Runtime.Outcome.{
  Outcome, Abort, done, die, ◌>>=◌, ◌>>◌, ThreadId, check_affinity, usize_max, dangling,
}
use bet.Runtime.Memory.{SysAlloc, alloc_or_die}
use bet.Runtime.Typed
use bet.Runtime.Typed.{Tag, null_tag, TypedCrib, new_typed}
use bet.Runtime.Bump
use bet.Runtime.Bump.{BumpCrib, new_bump, reset, used, destroy, Allocated}

pub data CribKind : Type 0 where
  typed : TypedCrib → CribKind
  bump : BumpCrib → CribKind

pub record Crib : Type 0 where
  pub owner : ThreadId
  pub kind : CribKind

-- The cribs of the process, the system allocator's memory, and each thread's scratch crib.
pub record Arenas (sys : SysAlloc) : Type 0 where
  pub cribs : List (Option Crib)
  pub memory : sys.Memory
  pub scratch : ThreadId → Option ℕ

abbrev pub found : Option (Option Crib) → Outcome Crib
found none = die dangling
found (some none) = die dangling
found (some (some c)) = done c

-- The block that a handle names.
unfoldable pub block : List (Option Crib) → ℕ → Outcome Crib
block cs zero = die dangling
block cs (suc n) = found (get_elem? cs n)

abbrev pub update {ℓ} : {A : Type ℓ} → (ℕ → A) → ℕ → A → ℕ → A
update f i a j = if i == j then a else f j

-- `saturating_mul`.
abbrev pub total_bytes : ℕ → ℕ → ℕ
total_bytes elem_size n = min (elem_size * n) usize_max

-- What each entry point does to the crib behind its handle.
abbrev pub evict_kind : CribKind → CribKind
evict_kind (typed t) = typed (Typed.evict t)
evict_kind (bump b) = bump (reset b)

abbrev pub evict_slot_kind : Tag → CribKind → CribKind
evict_slot_kind tag (typed t) = typed (Typed.evict_slot t tag)
evict_slot_kind tag (bump b) = bump b

abbrev pub cop_kind : CribKind → Outcome (Tag × CribKind)
cop_kind (typed t) = do q ← Typed.cop t; done (q.0, typed q.1)
cop_kind (bump b) = done (null_tag, bump b)

abbrev pub holla_kind : Tag → CribKind → ℕ
holla_kind tag (typed t) = Typed.holla_check t tag
holla_kind tag (bump b) = 0

abbrev pub slot_kind : ℕ → CribKind → ℕ
slot_kind slot (typed t) = Typed.slot_ptr t slot
slot_kind slot (bump b) = 0

abbrev pub used_kind : CribKind → ℕ
used_kind (typed t) = 0
used_kind (bump b) = used b

module _ (sys : SysAlloc) where
  -- `crib` and `crib_ref`: the handle's block, which the running thread must own.
  unfoldable pub crib_ref : ThreadId → Arenas sys → ℕ → Outcome Crib
  unfolding block
  crib_ref me r h = do c ← block r.cribs h; check_affinity c.owner me; done c

  abbrev pub store : Arenas sys → ℕ → CribKind → ThreadId → Arenas sys
  store r h k owner = record r {
    cribs = set r.cribs (h - 1) (some (record { owner = owner; kind = k }));
  }

  -- `Box::into_raw(Box::new(crib))`.
  abbrev pub boxed : Arenas sys → ThreadId → CribKind → ℕ × Arenas sys
  boxed r me k = (
    length r.cribs + 1,
    record r { cribs = r.cribs ++ some (record { owner = me; kind = k }) ∷ [] },
  )

  -- The slab of a typed crib: none for no bytes.
  unfoldable pub slab : sys.Memory → ℕ → ℕ → Outcome (ℕ × sys.Memory)
  slab m total align = if total == 0 then done (0, m) else alloc_or_die sys m total (max align 1)

  unfoldable pub bet_crib_new : ThreadId → Arenas sys → ℕ → ℕ → ℕ → Outcome (ℕ × Arenas sys)
  unfolding slab
  bet_crib_new me r elem_size elem_align capacity = do
    q ← slab r.memory (total_bytes elem_size capacity) elem_align
    let t = new_typed elem_size (max elem_align 1) capacity q.0
    done (boxed (record r { memory = q.1 }) me (typed t))

  unfoldable pub bet_crib_new_bump : ThreadId → Arenas sys → ℕ → Outcome (ℕ × Arenas sys)
  bet_crib_new_bump me r reserve = do
    q ← new_bump sys r.memory reserve
    done (boxed (record r { memory = q.1 }) me (bump q.0))

  abbrev pub freed_memory : CribKind → sys.Memory → sys.Memory
  freed_memory (typed t) m =
      let total = total_bytes t.elem_size (length t.slots) in
      if t.base == 0 then m else if total == 0 then m else sys.dealloc m t.base total t.elem_align
  freed_memory (bump b) m = (destroy sys m b).1

  -- `bet_crib_free`, which does not check the thread.
  unfoldable pub bet_crib_free : Arenas sys → ℕ → Outcome (Arenas sys)
  unfolding block
  bet_crib_free r zero = done r
  bet_crib_free r (suc n) = do
    c ← block r.cribs (suc n)
    done (record r { cribs = set r.cribs n none; memory = freed_memory c.kind r.memory })

  unfoldable pub bet_evict : ThreadId → Arenas sys → ℕ → Outcome (Arenas sys)
  unfolding crib_ref
  bet_evict me r h = do c ← crib_ref me r h; done (store r h (evict_kind c.kind) c.owner)

  unfoldable pub bet_evict_slot : ThreadId → Arenas sys → ℕ → Tag → Outcome (Arenas sys)
  unfolding crib_ref
  bet_evict_slot me r h tag = do
    c ← crib_ref me r h
    done (store r h (evict_slot_kind tag c.kind) c.owner)

  unfoldable pub bet_cop : ThreadId → Arenas sys → ℕ → Outcome (Tag × Arenas sys)
  unfolding crib_ref
  bet_cop me r h = do c ← crib_ref me r h; q ← cop_kind c.kind; done (q.0, store r h q.1 c.owner)

  unfoldable pub bet_holla_check : ThreadId → Arenas sys → ℕ → Tag → Outcome ℕ
  unfolding crib_ref
  bet_holla_check me r h tag = do c ← crib_ref me r h; done (holla_kind tag c.kind)

  unfoldable pub bet_slot_ptr : ThreadId → Arenas sys → ℕ → ℕ → Outcome ℕ
  unfolding crib_ref
  bet_slot_ptr me r h slot = do c ← crib_ref me r h; done (slot_kind slot c.kind)

  -- The results of `bet_bump_alloc`; `none` says that the loop's fuel ran out.
  abbrev pub bump_result :
      Arenas sys → ℕ → ThreadId → Allocated sys → Option (Outcome (ℕ × Arenas sys))
  bump_result r h owner none = none
  bump_result r h owner (some (die w)) = some (die w)
  bump_result r h owner (some (done (p, b, m))) =
      some (done (p, store (record r { memory = m }) h (bump b) owner))

  abbrev pub bump_kind :
      Arenas sys → ℕ → ℕ → ℕ → Crib → CribKind → Option (Outcome (ℕ × Arenas sys))
  bump_kind r h size align c (typed t) = some (done (0, r))
  bump_kind r h size align c (bump b) =
      bump_result r h c.owner (Bump.bump_alloc sys r.memory b size align)

  abbrev pub bump_owned : Arenas sys → ℕ → ℕ → ℕ → Outcome Crib → Option (Outcome (ℕ × Arenas sys))
  bump_owned r h size align (die w) = some (die w)
  bump_owned r h size align (done c) = bump_kind r h size align c c.kind

  unfoldable pub bet_bump_alloc :
      ThreadId → Arenas sys → ℕ → ℕ → ℕ → Option (Outcome (ℕ × Arenas sys))
  unfolding crib_ref
  bet_bump_alloc me r h size align = bump_owned r h size align (crib_ref me r h)

  -- The thread's scratch crib, made on its first use.
  abbrev pub scratch_from : ThreadId → Arenas sys → Option ℕ → Outcome (ℕ × Arenas sys)
  scratch_from me r (some h) = done (h, r)
  scratch_from me r none = do
    q ← bet_crib_new_bump me r (64 * 1024)
    done (q.0, record (q.1) { scratch = update (q.1).scratch me (some q.0) })

  unfoldable pub bet_scratch : ThreadId → Arenas sys → Outcome (ℕ × Arenas sys)
  unfolding bet_crib_new_bump
  bet_scratch me r = scratch_from me r (r.scratch me)

  abbrev pub reset_from : ThreadId → Arenas sys → Option ℕ → Outcome (Arenas sys)
  reset_from me r none = done r
  reset_from me r (some h) = bet_evict me r h

  unfoldable pub bet_scratch_reset : ThreadId → Arenas sys → Outcome (Arenas sys)
  unfolding bet_evict
  bet_scratch_reset me r = reset_from me r (r.scratch me)

  abbrev pub receipts_from : ThreadId → Arenas sys → Option ℕ → Outcome ℕ
  receipts_from me r none = done 0
  receipts_from me r (some h) = do c ← crib_ref me r h; done (used_kind c.kind)

  unfoldable pub bet_mem_receipts : ThreadId → Arenas sys → Outcome ℕ
  unfolding crib_ref
  bet_mem_receipts me r = receipts_from me r (r.scratch me)

  -- `bet_rt_shutdown`: the thread's scratch crib is freed.
  abbrev pub shutdown_from : ThreadId → Arenas sys → Option ℕ → Outcome (Arenas sys)
  shutdown_from me r none = done r
  shutdown_from me r (some h) = bet_crib_free (record r { scratch = update r.scratch me none }) h

  unfoldable pub bet_rt_shutdown : ThreadId → Arenas sys → Outcome (Arenas sys)
  unfolding bet_crib_free
  bet_rt_shutdown me r = shutdown_from me r (r.scratch me)
