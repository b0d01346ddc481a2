-- ===== src/Tests/Collections.antt =====
-- Runs of the collections, the generator, the boundaries and the tasks.
use bet.Prelude.{
  ℕ, ◌+◌, ◌-◌, ◌/◌, ◌^◌, ◌≤◌, ◌<◌, ◌≡◌, ◌≢◌, ◌↔◌, refl, none, some, List, [], ◌∷◌, ◌++◌, arith,
  length, take, All, if◌then◌else◌,
}
use bet.Runtime.Outcome.{done}
use bet.Runtime.Stash.{
  Bytes, StashMap, bet_map_put, bet_map_get, bet_map_del, bet_map_len, lookup, is_some, bytes_eq,
}
use bet.Runtime.Stash.Laws.{IsStash, put_lem, del_lem}
use bet.Runtime.DynVec.{DynVec, bet_vec_push}
use bet.Runtime.DynVec.View.{Views, push_lem}
use bet.Runtime.Rng.{next_u64, new_rng, up_to}
use bet.Runtime.Rng.Bound.{run_start, up_to_unbiased}
use bet.Runtime.Boundaries.{Nested, recover_begin, recover_end, recover_brackets, TaskReg}

abbrev pub key : Bytes
key = 104 ∷ 105 ∷ []

abbrev pub stash : StashMap
stash = record { owner = 7; val_size = 2; entries = (key, 1 ∷ 2 ∷ []) ∷ [] }

stash-IsStash : IsStash stash
unfolding lookup
stash-IsStash = record { once = (refl, tt); wide = (refl, tt) }

put_lem_example :
    (m' : StashMap) × (bet_map_put 7 stash key (3 ∷ 4 ∷ 5 ∷ []) ≡ done m')
    × IsStash m'
    × ((j : Bytes)
        → bet_map_get 7 m' j ≡ (
            if bytes_eq key j
            then done (some (take 2 (3 ∷ 4 ∷ 5 ∷ [])))
            else bet_map_get 7 stash j))
    × (bet_map_len 7 m'
        ≡ done (
            if is_some (lookup stash.entries key)
            then length stash.entries
            else length stash.entries + 1))
put_lem_example = put_lem 7 stash refl stash-IsStash key (3 ∷ 4 ∷ 5 ∷ []) (omega arith)

del_lem_example :
    (m' : StashMap) × (bet_map_del 7 stash key ≡ done (is_some (lookup stash.entries key), m'))
    × IsStash m'
    × ((j : Bytes)
        → bet_map_get 7 m' j ≡ (if bytes_eq key j then done none else bet_map_get 7 stash j))
    × (bet_map_len 7 m'
        ≡ done (
            if is_some (lookup stash.entries key)
            then length stash.entries - 1
            else length stash.entries))
del_lem_example = del_lem 7 stash refl stash-IsStash key

-- Two elements of two bytes.
abbrev pub pairs : List Bytes
pairs = (1 ∷ 2 ∷ []) ∷ (3 ∷ 4 ∷ []) ∷ []

abbrev pub vec : DynVec
vec = record { owner = 7; elem_size = 2; contents = 1 ∷ 2 ∷ 3 ∷ 4 ∷ [] }

vec-Views : Views vec pairs
vec-Views = record { wide = (refl, (refl, tt)); bytes = refl; some_width = omega arith }

push_lem_example :
    (v' : DynVec) × (bet_vec_push 7 vec (5 ∷ 6 ∷ []) ≡ done v')
    × Views v' (pairs ++ take 2 (5 ∷ 6 ∷ []) ∷ [])
push_lem_example = push_lem 7 vec pairs refl vec-Views (5 ∷ 6 ∷ []) (omega arith)

-- The first draw of seed 0, as the contract of `bet_rng_new` has it.
first_draw : (next_u64 (new_rng 0)).0 ≡ 0x99ec5f36cb75f2b4
unfolding next_u64 new_rng
first_draw = refl

abbrev two : ℕ
two = 2

up_to_unbiased_example :
    ((up_to 1 3 (new_rng 0) ≡ some (2, (next_u64 (new_rng 0)).1))
      ↔ (run_start 3 2 ≤ (next_u64 (new_rng 0)).0)
        × ((next_u64 (new_rng 0)).0 < run_start 3 2 + 2 ^ 64 / 3))
    × (two < 3 → run_start 3 2 + 2 ^ 64 / 3 ≤ 2 ^ 64)
    × (up_to 1 3 (new_rng 0) ≡ some (2, (next_u64 (new_rng 0)).1)
        → up_to 5 3 (new_rng 0) ≡ some (2, (next_u64 (new_rng 0)).1))
up_to_unbiased_example = up_to_unbiased 4 3 two (new_rng 0) (omega arith) (omega arith)

abbrev six : ℕ
six = 6

recover_brackets_example :
    Nested (recover_begin (2 ∷ 1 ∷ [])).1
    × (0 < (recover_begin (2 ∷ 1 ∷ [])).0)
    × All (λ u. u ≢ (recover_begin (2 ∷ 1 ∷ [])).0) (2 ∷ 1 ∷ [])
    × (recover_end (recover_begin (2 ∷ 1 ∷ [])).0 (recover_begin (2 ∷ 1 ∷ [])).1 ≡ 2 ∷ 1 ∷ [])
    × ((token : ℕ)
        → token ≢ (recover_begin (2 ∷ 1 ∷ [])).0
        → recover_end token (recover_begin (2 ∷ 1 ∷ [])).1 ≡ (recover_begin (2 ∷ 1 ∷ [])).1)
recover_brackets_example =
    recover_brackets (2 ∷ 1 ∷ []) (omega arith, (omega arith, tt), (omega arith, tt, tt))

abbrev pub tasks : TaskReg
tasks = record { next = 3; handles = (2, 20) ∷ [] }
