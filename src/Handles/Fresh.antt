-- ===== src/Handles/Fresh.antt =====
-- A new crib of the runtime and a new arena of the interpreter, under the same requests.
use bet.Prelude.{
  ℕ, zero, suc, ◌<◌, ◌≤◌, ◌^◌, ◌≡◌, ◌≢◌, ap, true, false, some, List, [], length, replicate,
  length-replicate, arith,
}
use bet.Runtime.Typed.{SlotMeta, TypedCrib, evict, new_typed}
use bet.Runtime.Typed.Valid.{IsValid, new_typed-IsValid}
use bet.Interp.Arena.{Arena}
use bet.Handles.{Request, run, answers}
use bet.Handles.Agree.{run-answers}
use bet.Handles.Slab.{SlabRoom, Young, length-push_range, evict-Room}
use bet.Handles.Checked.{slab}
use bet.Handles.Grown.{grown}

abbrev pub new_arena : {A : Type 0} → Arena A
new_arena = record { slots = []; typed = true }

abbrev fresh_slot : SlotMeta
fresh_slot = record { occupied = false; generation = 0 }

Young-replicate : (n k : ℕ) → n < 2 ^ 64 → Young n (replicate k fresh_slot)
Young-replicate n zero h i m e = cc
Young-replicate n (suc k) h zero m e =
    let q : record { occupied = false; generation = 0 } ≡ m = cc in
    let g : 0 ≡ m.generation = ap (λ (r : SlotMeta). r.generation) q in omega arith
Young-replicate n (suc k) h (suc i) m e = Young-replicate n k h i m e

new_typed-Room :
    (n size align capacity base : ℕ)
    → n ≤ capacity
    → capacity < 2 ^ 32
    → base ≢ 0
    → SlabRoom n (new_typed size align capacity base)
unfolding new_typed
new_typed-Room n size align capacity base le h placed = record {
  placed = placed;
  valid = new_typed-IsValid size align capacity base h;
  spare = let l = length-push_range 0 capacity [] in omega arith;
  wide =
      let l : length (replicate capacity fresh_slot) ≡ capacity =
        length-replicate capacity fresh_slot in
      omega arith;
  young = Young-replicate n capacity (omega arith);
}

-- For a list of requests that is no longer than the capacity, which is below 2^32: on a new typed
-- crib of the runtime whose slab has an address other than null, and on a new arena of the
-- interpreter, the requests are all served, and each `holla` test is answered alike, that a tag is
-- live exactly while neither it nor the whole crib has been evicted since its `cop`. The runtime's
-- test is that `bet_holla_check` gives a pointer that is not null.
pub fresh_agree :
    {A : Type 0} (v : A) (size align capacity base : ℕ) (qs : List Request)
    → length qs ≤ capacity
    → capacity < 2 ^ 32
    → base ≢ 0
    → (run slab (new_typed size align capacity base) [] qs ≡ some (answers [] qs))
      × (run (grown v) new_arena [] qs ≡ some (answers [] qs))
fresh_agree v size align capacity base qs le h placed = (
  run-answers slab (new_typed size align capacity base) qs
      (new_typed-Room (length qs) size align capacity base le h placed),
  run-answers (grown v) new_arena qs (omega arith, tt),
)

-- On a well-formed typed crib of the runtime whose slab has an address other than null, however many of its slots are taken: after an eviction, a
-- program of no more requests than the crib has slots is served, where each slot has more generations
-- left than there are requests. Each of its `cop`s gives a tag that `bet_holla_check` gives a pointer other
-- than null for until the tag is freed, and null from then on.
pub served_after_evict :
    (t : TypedCrib) (qs : List Request)
    → IsValid t
    → t.base ≢ 0
    → length qs ≤ length t.slots
    → Young (suc (length qs)) t.slots
    → run slab (evict t) [] qs ≡ some (answers [] qs)
served_after_evict t qs v placed le young =
    run-answers slab (evict t) qs (evict-Room (length qs) t v placed le young)
