-- ===== src/Runtime/Boundaries.antt =====
-- The thread-local stacks and the task registry of crates/runtime/src/lib.rs: allocator contexts
-- (`bet_ctx_*`), recovery boundaries (`bet_recover_*`) and tasks (`bet_slide`, `bet_task_join`).
-- A stack is a list, innermost first. A spawned thread is the number by which the system knows it.
use bet.Prelude.{
  ℕ, ◌+◌, ◌<◌, ◌≡◌, ◌≢◌, Option, none, some, List, [], ◌∷◌, ◌==◌, if◌then◌else◌, All, arith,
  ==-refl,
}

-- `bet_ctx_current`, `bet_ctx_push` and `bet_ctx_pop`; 0 is the null context.
unfoldable pub ctx_current : List ℕ → ℕ
ctx_current [] = 0
ctx_current (c ∷ s) = c

unfoldable pub ctx_push : ℕ → List ℕ → List ℕ
ctx_push c s = c ∷ s

unfoldable pub ctx_pop : List ℕ → List ℕ
ctx_pop [] = []
ctx_pop (c ∷ s) = s

-- The token of a new boundary.
abbrev pub next_token : List ℕ → ℕ
next_token [] = 1
next_token (top ∷ s) = top + 1

unfoldable pub recover_begin : List ℕ → ℕ × List ℕ
recover_begin s = (next_token s, next_token s ∷ s)

unfoldable pub recover_end : ℕ → List ℕ → List ℕ
recover_end token [] = []
recover_end token (top ∷ s) = if top == token then s else top ∷ s

-- The tokens of the open boundaries fall from the innermost outwards, and none is null.
abbrev pub Nested : List ℕ → Type 0
Nested [] = Unit
Nested (t ∷ s) = (0 < t) × All (λ u. u < t) s × Nested s

below_next : (s : List ℕ) → Nested s → All (λ u. u < next_token s) s
below_next [] n = tt
below_next (t ∷ s) (p, b, n) = (omega arith, widen s b)
  where
    widen : (s : List ℕ) → All (λ u. u < t) s → All (λ u. u < t + 1) s
    widen [] b = tt
    widen (u ∷ s) (l, b) = (omega arith, widen s b)

recover_end_self : (t : ℕ) (s : List ℕ) → recover_end t (t ∷ s) ≡ s
unfolding recover_end
recover_end_self t s = rw ==-refl

-- On a stack of nested boundaries, one that is begun is nested in those that are open, with a token
-- that is not null and is none of theirs; its end gives the stack back, and an end under any other
-- token changes nothing while it is the innermost.
pub recover_brackets :
    (s : List ℕ)
    → Nested s
    → Nested (recover_begin s).1
      × (0 < (recover_begin s).0)
      × All (λ u. u ≢ (recover_begin s).0) s
      × (recover_end (recover_begin s).0 (recover_begin s).1 ≡ s)
      × ((token : ℕ)
          → token ≢ (recover_begin s).0
          → recover_end token (recover_begin s).1 ≡ (recover_begin s).1)
unfolding recover_begin
recover_brackets s n = (
  (positive s, below_next s n, n),
  positive s,
  apart s (next_token s) (below_next s n),
  recover_end_self (next_token s) s,
  λ token ne. unfold recover_end in ground arith,
)
  where
    positive : (s : List ℕ) → 0 < next_token s
    positive [] = omega arith
    positive (t ∷ s) = omega arith

    apart : (s : List ℕ) (k : ℕ) → All (λ u. u < k) s → All (λ u. u ≢ k) s
    apart [] k b = tt
    apart (u ∷ s) k (l, b) = (omega arith, apart s k b)

-- `TaskReg`: the next id, and the threads by id.
pub record TaskReg : Type 0 where
  pub next : ℕ
  pub handles : List (ℕ × ℕ)

abbrev pub no_tasks : TaskReg
no_tasks = record { next = 1; handles = [] }

-- The registry's part of `bet_slide`, for a thread that has been spawned.
unfoldable pub slide : ℕ → TaskReg → ℕ × TaskReg
slide thread r = (r.next, record { next = r.next + 1; handles = (r.next, thread) ∷ r.handles })

unfoldable pub find_task : ℕ → List (ℕ × ℕ) → Option ℕ
find_task id [] = none
find_task id ((i, t) ∷ hs) = if i == id then some t else find_task id hs

unfoldable pub remove_task : ℕ → List (ℕ × ℕ) → List (ℕ × ℕ)
remove_task id [] = []
remove_task id ((i, t) ∷ hs) = if i == id then hs else (i, t) ∷ remove_task id hs

-- `bet_task_join`: the thread that is waited for, if the task is known.
unfoldable pub task_join : ℕ → TaskReg → Option ℕ × TaskReg
unfolding find_task remove_task
task_join id r = (find_task id r.handles, record r { handles = remove_task id r.handles })

abbrev pub Distinct : List (ℕ × ℕ) → Type 0
Distinct [] = Unit
Distinct ((i, t) ∷ hs) = All (λ h. h.0 ≢ i) hs × Distinct hs

-- Ids are given out in order, each to one task.
pub record IsRegistry (r : TaskReg) : Type 0 where
  pub fresh : All (λ h. h.0 < r.next) r.handles
  pub once : Distinct r.handles
  pub positive : 0 < r.next
