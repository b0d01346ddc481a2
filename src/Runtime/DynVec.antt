-- ===== src/Runtime/DynVec.antt =====
-- The vec entry points of crates/runtime/src/lib.rs (`bet_vec_*`): a growable array of fixed-width
-- elements in one flat byte buffer. What is read through a pointer is the list of bytes there.
pub mod View
use bet.Prelude.{
  ℕ, zero, suc, ◌+◌, ◌-◌, ◌*◌, ◌/◌, Bool, true, false, Option, none, some, List, [], ◌∷◌, ◌++◌,
  ◌==◌, leb, if◌then◌else◌, length, take, drop,
}
use bet.Runtime.Outcome.{Outcome, done, die, ◌>>=◌, ◌>>◌, ThreadId, check_affinity}

abbrev pub Bytes : Type 0
Bytes = List ℕ

pub record DynVec : Type 0 where
  pub owner : ThreadId
  pub elem_size : ℕ
  pub contents : Bytes

-- `checked_div`, with 0 for a division by zero, which `/` gives.
abbrev pub len : DynVec → ℕ
len v = length v.contents / v.elem_size

-- `vec_ref` and `vec_ref_shared`.
abbrev pub vec_ref : ThreadId → DynVec → Outcome DynVec
vec_ref me v = do check_affinity v.owner me; done v

unfoldable pub bet_vec_new : ThreadId → ℕ → DynVec
bet_vec_new me elem_size = record { owner = me; elem_size = elem_size; contents = [] }

unfoldable pub bet_vec_push : ThreadId → DynVec → Bytes → Outcome DynVec
bet_vec_push me s elem = do
  v ← vec_ref me s
  done (record v { contents = v.contents ++ take v.elem_size elem })

-- The element that is copied to `out_elem`; `none` for the result `false`.
unfoldable pub bet_vec_pop : ThreadId → DynVec → Outcome (Option Bytes × DynVec)
bet_vec_pop me s = do
  v ← vec_ref me s
  let start = (len v - 1) * v.elem_size
  if len v == 0
      then done (none, v)
      else done (
        some (take v.elem_size (drop start v.contents)),
        record v { contents = take start v.contents },
      )

unfoldable pub bet_vec_get : ThreadId → DynVec → ℕ → Outcome (Option Bytes)
bet_vec_get me s idx = do
  v ← vec_ref me s
  if leb (len v) idx
      then done none
      else done (some (take v.elem_size (drop (idx * v.elem_size) v.contents)))

unfoldable pub bet_vec_set : ThreadId → DynVec → ℕ → Bytes → Outcome (Bool × DynVec)
bet_vec_set me s idx elem = do
  v ← vec_ref me s
  let start = idx * v.elem_size
  if leb (len v) idx
      then done (false, v)
      else done (
        true,
        record v {
          contents =
              take start v.contents
              ++ (take v.elem_size elem ++ drop (start + v.elem_size) v.contents);
        },
      )

unfoldable pub bet_vec_len : ThreadId → DynVec → Outcome ℕ
bet_vec_len me s = do v ← vec_ref me s; done (len v)

-- `bet_vec_data`: the buffer, as the bytes that the pointer leads to.
unfoldable pub bet_vec_data : ThreadId → DynVec → Outcome Bytes
bet_vec_data me s = do v ← vec_ref me s; done v.contents

-- `bet_vec_extend`: `n` bytes from memory that begins with `bytes`.
unfoldable pub bet_vec_extend : ThreadId → DynVec → Bytes → ℕ → Outcome DynVec
bet_vec_extend me s bytes n = do
  v ← vec_ref me s
  done (record v { contents = v.contents ++ take n bytes })
