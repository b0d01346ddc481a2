-- ===== src/Runtime/Stash.antt =====
-- The stash entry points of crates/runtime/src/lib.rs (`bet_map_*`): a map from byte strings to
-- values of a fixed width. The `HashMap` is an association list with one entry for each key.
pub mod Laws
use bet.Prelude.{
  ℕ, zero, suc, Bool, true, false, ◌&&◌, Option, none, some, List, [], ◌∷◌, ◌==◌, if◌then◌else◌,
  length, take,
}
use bet.Runtime.Outcome.{Outcome, done, die, ◌>>=◌, ◌>>◌, ThreadId, check_affinity}

abbrev pub Bytes : Type 0
Bytes = List ℕ

abbrev pub bytes_eq : Bytes → Bytes → Bool
bytes_eq [] [] = true
bytes_eq [] (y ∷ ys) = false
bytes_eq (x ∷ xs) [] = false
bytes_eq (x ∷ xs) (y ∷ ys) = x == y && bytes_eq xs ys

abbrev pub Entries : Type 0
Entries = List (Bytes × Bytes)

pub record StashMap : Type 0 where
  pub owner : ThreadId
  pub val_size : ℕ
  pub entries : Entries

-- `HashMap::get`, `insert` and `remove`.
unfoldable pub lookup : Entries → Bytes → Option Bytes
lookup [] key = none
lookup ((k, v) ∷ es) key = if bytes_eq k key then some v else lookup es key

unfoldable pub insert : Entries → Bytes → Bytes → Entries
insert [] key val = (key, val) ∷ []
insert ((k, v) ∷ es) key val = if bytes_eq k key then (k, val) ∷ es else (k, v) ∷ insert es key val

unfoldable pub remove : Entries → Bytes → Entries
remove [] key = []
remove ((k, v) ∷ es) key = if bytes_eq k key then es else (k, v) ∷ remove es key

-- The handle's map, which the running thread must own: `stash_ref` and `stash_ref_shared`.
abbrev pub stash_ref : ThreadId → StashMap → Outcome StashMap
stash_ref me m = do check_affinity m.owner me; done m

unfoldable pub bet_map_new : ThreadId → ℕ → StashMap
bet_map_new me val_size = record { owner = me; val_size = val_size; entries = [] }

-- The value is read from memory that begins with `val`, `val_size` bytes of it.
unfoldable pub bet_map_put : ThreadId → StashMap → Bytes → Bytes → Outcome StashMap
bet_map_put me s key val = do
  m ← stash_ref me s
  done (record m { entries = insert m.entries key (take m.val_size val) })

-- What is written to `out_val`, or nothing and `false`.
unfoldable pub bet_map_get : ThreadId → StashMap → Bytes → Outcome (Option Bytes)
bet_map_get me s key = do m ← stash_ref me s; done (lookup m.entries key)

abbrev pub is_some {ℓ} : {A : Type ℓ} → Option A → Bool
is_some none = false
is_some (some a) = true

unfoldable pub bet_map_del : ThreadId → StashMap → Bytes → Outcome (Bool × StashMap)
bet_map_del me s key = do
  m ← stash_ref me s
  done (is_some (lookup m.entries key), record m { entries = remove m.entries key })

unfoldable pub bet_map_len : ThreadId → StashMap → Outcome ℕ
bet_map_len me s = do m ← stash_ref me s; done (length m.entries)
