-- ===== src/Runtime/Stash/Laws.antt =====
-- The stash as a finite map: what a get gives after a put and after a deletion, and the count.
use bet.Prelude.{
  ℕ, zero, suc, ◌+◌, ◌-◌, ◌≤◌, ◌≡◌, refl, ap, ◌∙◌, true, none, some, [], ◌∷◌, if◌then◌else◌, length,
  take, All, arith, Bool-cases, inl, inr,
}
use bet.Runtime.Outcome.{done, ThreadId, check_affinity}
use bet.Runtime.Stash.{
  Bytes, bytes_eq, Entries, StashMap, lookup, insert, remove, bet_map_put, bet_map_get, bet_map_del,
  bet_map_len, is_some,
}

bytes_eq→≡ : (a b : Bytes) → bytes_eq a b ≡ true → a ≡ b
bytes_eq→≡ [] [] h = refl
bytes_eq→≡ [] (y ∷ ys) h = cc
bytes_eq→≡ (x ∷ xs) [] h = cc
bytes_eq→≡ (x ∷ xs) (y ∷ ys) h =
    let tails = bytes_eq→≡ xs ys (ground arith) in
    let heads : x ≡ y = ground arith in cc (tails, heads)

pub bytes_eq_refl : (a : Bytes) → bytes_eq a a ≡ true
bytes_eq_refl [] = refl
bytes_eq_refl (x ∷ xs) = ground (arith, bytes_eq_refl xs)

bytes_eq_trans : (a b c : Bytes) → bytes_eq a b ≡ true → bytes_eq a c ≡ bytes_eq b c
bytes_eq_trans a b c h = ap (λ (x : Bytes). bytes_eq x c) (bytes_eq→≡ a b h)

bytes_eq_comm : (a b : Bytes) → bytes_eq a b ≡ bytes_eq b a
bytes_eq_comm [] [] = refl
bytes_eq_comm [] (y ∷ ys) = refl
bytes_eq_comm (x ∷ xs) [] = refl
bytes_eq_comm (x ∷ xs) (y ∷ ys) = ground (arith, bytes_eq_comm xs ys)

lookup-insert :
    (es : Entries) (k j v : Bytes)
    → lookup (insert es k v) j ≡ (if bytes_eq k j then some v else lookup es j)
unfolding lookup insert
lookup-insert [] k j v = refl
lookup-insert ((i, w) ∷ es) k j v = elim (Bool-cases (bytes_eq i k)) [
  | inl same ↦ rw same (rw (bytes_eq_trans i k j same) (ground arith))
  | inr differ ↦
      rw differ (ground (arith, lookup-insert es k j v, bytes_eq_trans i j k, bytes_eq_comm j k))
]

-- Each key has one entry.
abbrev pub OneEach : Entries → Type 0
OneEach [] = Unit
OneEach ((k, v) ∷ es) = (lookup es k ≡ none) × OneEach es

lookup_congr : (es : Entries) (k j : Bytes) → bytes_eq k j ≡ true → lookup es k ≡ lookup es j
lookup_congr es k j h = ap (lookup es) (bytes_eq→≡ k j h)

lookup-remove :
    (es : Entries) (k j : Bytes)
    → OneEach es
    → lookup (remove es k) j ≡ (if bytes_eq k j then none else lookup es j)
unfolding lookup remove
lookup-remove [] k j o = ground arith
lookup-remove ((i, w) ∷ es) k j (o, os) = elim (Bool-cases (bytes_eq i k)) [
  | inl same ↦ rw same (
      rw (bytes_eq_trans i k j same)
        (ground (arith, lookup_congr es i k same, lookup_congr es k j, o)))
  | inr differ ↦
      rw differ (ground (arith, lookup-remove es k j os, bytes_eq_trans i j k, bytes_eq_comm j k))
]

insert-OneEach : (es : Entries) (k v : Bytes) → OneEach es → OneEach (insert es k v)
unfolding insert lookup
insert-OneEach [] k v o = (refl, tt)
insert-OneEach ((i, w) ∷ es) k v (o, os) = elim (Bool-cases (bytes_eq i k)) [
  | inl same ↦ rw same (o, os)
  | inr differ ↦
      rw differ
        (lookup-insert es k i v ∙ rw (bytes_eq_comm k i ∙ differ) o, insert-OneEach es k v os)
]

remove-none :
    (es : Entries) (k j : Bytes) → OneEach es → lookup es j ≡ none → lookup (remove es k) j ≡ none
remove-none es k j o e = lookup-remove es k j o ∙ ground (arith, e)

remove-OneEach : (es : Entries) (k : Bytes) → OneEach es → OneEach (remove es k)
unfolding remove
remove-OneEach [] k o = tt
remove-OneEach ((i, w) ∷ es) k (o, os) = elim (Bool-cases (bytes_eq i k)) [
  | inl same ↦ rw same os
  | inr differ ↦ rw differ (remove-none es k i os o, remove-OneEach es k os)
]

length-insert :
    (es : Entries) (k v : Bytes)
    → length (insert es k v) ≡ (if is_some (lookup es k) then length es else length es + 1)
unfolding insert lookup
length-insert [] k v = omega arith
length-insert ((i, w) ∷ es) k v = ground (arith, length-insert es k v)

length-remove :
    (es : Entries) (k : Bytes)
    → length (remove es k) ≡ (if is_some (lookup es k) then length es - 1 else length es)
unfolding remove lookup
length-remove [] k = omega arith
length-remove ((i, w) ∷ []) k = ground arith
length-remove ((i, w) ∷ e ∷ es) k = ground (arith, length-remove (e ∷ es) k)

-- Each key has one entry, and each value the width of the map.
pub record IsStash (m : StashMap) : Type 0 where
  pub once : OneEach m.entries
  pub wide : All (λ e. length e.1 ≡ m.val_size) m.entries

insert-wide :
    (n : ℕ) (es : Entries) (k v : Bytes)
    → length v ≡ n
    → All (λ e. length e.1 ≡ n) es
    → All (λ e. length e.1 ≡ n) (insert es k v)
unfolding insert
insert-wide n [] k v h w = (h, tt)
insert-wide n ((i, x) ∷ es) k v h (w, ws) = elim (Bool-cases (bytes_eq i k)) [
  | inl same ↦ rw same (h, ws)
  | inr differ ↦ rw differ (w, insert-wide n es k v h ws)
]

remove-wide :
    (n : ℕ) (es : Entries) (k : Bytes)
    → All (λ e. length e.1 ≡ n) es
    → All (λ e. length e.1 ≡ n) (remove es k)
unfolding remove
remove-wide n [] k w = tt
remove-wide n ((i, x) ∷ es) k (w, ws) = elim (Bool-cases (bytes_eq i k)) [
  | inl same ↦ rw same ws
  | inr differ ↦ rw differ (w, remove-wide n es k ws)
]

length-take : (n : ℕ) (v : Bytes) → n ≤ length v → length (take n v) ≡ n
length-take zero v h = refl
length-take (suc n) [] h = elim h [ ]
length-take (suc n) (x ∷ v) h = ap suc (length-take n v (omega arith))

own : (me : ThreadId) (m : StashMap) → m.owner ≡ me → check_affinity m.owner me ≡ done tt
own me m e = ground arith

module _ (me : ThreadId) (m : StashMap) (mine : m.owner ≡ me) (valid : IsStash m) where
  -- On a well-formed map of the running thread, with a value of at least the map's width, a put
  -- succeeds and keeps the map well-formed; a get then finds the value's first bytes under the key
  -- and what was there under any other, and the count grows by one for a new key only.
  pub put_lem :
      (key val : Bytes)
      → m.val_size ≤ length val
      → (m' : StashMap) × (bet_map_put me m key val ≡ done m')
        × IsStash m'
        × ((j : Bytes)
            → bet_map_get me m' j
              ≡ (if bytes_eq key j then done (some (take m.val_size val)) else bet_map_get me m j))
        × (bet_map_len me m'
            ≡ done
                (if is_some (lookup m.entries key) then length m.entries else length m.entries + 1))
  unfolding bet_map_put bet_map_get bet_map_len
  put_lem key val h =
      let o = own me m mine in
      (
        record m { entries = insert m.entries key (take m.val_size val) },
        rw o,
        record {
          once = insert-OneEach m.entries key (take m.val_size val) valid.once;
          wide =
              insert-wide m.val_size m.entries key (take m.val_size val)
                (length-take m.val_size val h) valid.wide;
        },
        λ j. rw (o, lookup-insert) (ground arith),
        rw (o, length-insert) refl,
      )

  -- On a well-formed map of the running thread, a deletion succeeds and keeps the map well-formed;
  -- it says whether the key was there, removes it and no other key, and the count falls by one for
  -- a key that was there only.
  pub del_lem :
      (key : Bytes)
      → (m' : StashMap) × (bet_map_del me m key ≡ done (is_some (lookup m.entries key), m'))
        × IsStash m'
        × ((j : Bytes)
            → bet_map_get me m' j ≡ (if bytes_eq key j then done none else bet_map_get me m j))
        × (bet_map_len me m'
            ≡ done
                (if is_some (lookup m.entries key) then length m.entries - 1 else length m.entries))
  unfolding bet_map_del bet_map_get bet_map_len
  del_lem key =
      let o = own me m mine in
      (
        record m { entries = remove m.entries key },
        rw o,
        record {
          once = remove-OneEach m.entries key valid.once;
          wide = remove-wide m.val_size m.entries key valid.wide;
        },
        λ j. rw (o, lookup-remove m.entries key j valid.once) (ground arith),
        rw (o, length-remove) refl,
      )
