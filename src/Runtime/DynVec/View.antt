-- ===== src/Runtime/DynVec/View.antt =====
-- The vec as a list of elements: the buffer is their concatenation, and each entry point does to the
-- list what its name says.
use native.Mathlib.Nat.{mul-div_cancel}
use mathlib.Core.List.{append_assoc, append-nil}
use bet.Prelude.{
  ℕ, zero, suc, ◌+◌, ◌-◌, ◌*◌, ◌≤◌, ◌<◌, ◌≡◌, refl, ap, sym, subst, ◌∙◌, Option, some, List, [],
  ◌∷◌, ◌++◌, ◌==◌, leb, ltb, length, get_elem?, set, take, drop, All, arith, Bool-cases, inl, inr,
  length-append, tests, get_elem?-none, set_beyond,
}
use bet.Runtime.Outcome.{done, ThreadId, check_affinity}
use bet.Runtime.DynVec.{
  Bytes, DynVec, len, bet_vec_push, bet_vec_pop, bet_vec_get, bet_vec_set, bet_vec_len,
}

abbrev pub flat : List Bytes → Bytes
flat [] = []
flat (x ∷ xs) = x ++ flat xs

abbrev pub Wide : ℕ → List Bytes → Type 0
Wide n = All (λ x. length x ≡ n)

-- The elements that the buffer holds, each of the vec's width, which is not zero.
pub record Views (v : DynVec) (xs : List Bytes) : Type 0 where
  pub wide : Wide v.elem_size xs
  pub bytes : v.contents ≡ flat xs
  pub some_width : 0 < v.elem_size

length-flat : (n : ℕ) (xs : List Bytes) → Wide n xs → length (flat xs) ≡ length xs * n
length-flat n [] w = omega arith
length-flat n (x ∷ xs) (w, ws) = length-append x (flat xs) ∙ omega (arith, length-flat n xs ws)

take-length-append : (x ys : Bytes) → take (length x) (x ++ ys) ≡ x
take-length-append [] ys = refl
take-length-append (b ∷ x) ys = ap (λ (t : Bytes). b ∷ t) (take-length-append x ys)

drop-length-append : (x ys : Bytes) (k : ℕ) → drop (length x + k) (x ++ ys) ≡ drop k ys
drop-length-append [] ys k = let e : 0 + k ≡ k = omega arith in rw e
drop-length-append (b ∷ x) ys k =
    let e : suc (length x) + k ≡ suc (length x + k) = omega arith in
    rw e (drop-length-append x ys k)

take-append_more : (x ys : Bytes) (k : ℕ) → take (length x + k) (x ++ ys) ≡ x ++ take k ys
take-append_more [] ys k = let e : 0 + k ≡ k = omega arith in rw e
take-append_more (b ∷ x) ys k =
    let e : suc (length x) + k ≡ suc (length x + k) = omega arith in
    rw e (ap (λ (t : Bytes). b ∷ t) (take-append_more x ys k))

-- Cutting the buffer at an element's boundary cuts the list.
take-flat :
    (n i : ℕ) (xs : List Bytes)
    → Wide n xs
    → i ≤ length xs
    → take (i * n) (flat xs) ≡ flat (take i xs)
take-flat n zero xs w h = let e : 0 * n ≡ 0 = omega arith in rw e
take-flat n (suc i) [] w h = elim h [ ]
take-flat n (suc i) (x ∷ xs) (w, ws) h =
    let e : suc i * n ≡ length x + i * n = omega arith in
    rw e (
      take-append_more x (flat xs) (i * n)
      ∙ ap (λ (t : Bytes). x ++ t) (take-flat n i xs ws (omega arith)))

drop-flat :
    (n i : ℕ) (xs : List Bytes)
    → Wide n xs
    → i ≤ length xs
    → drop (i * n) (flat xs) ≡ flat (drop i xs)
drop-flat n zero xs w h = let e : 0 * n ≡ 0 = omega arith in rw e
drop-flat n (suc i) [] w h = elim h [ ]
drop-flat n (suc i) (x ∷ xs) (w, ws) h =
    let e : suc i * n ≡ length x + i * n = omega arith in
    rw e (drop-length-append x (flat xs) (i * n) ∙ drop-flat n i xs ws (omega arith))

-- The element at a position in range is what the buffer holds there.
element_at :
    (n i : ℕ) (xs : List Bytes)
    → Wide n xs
    → i < length xs
    → some (take n (drop (i * n) (flat xs))) ≡ get_elem? xs i
element_at n i [] w h = elim h [ ]
element_at n zero (x ∷ xs) (w, ws) h =
    let e : 0 * n ≡ 0 = omega arith in
    rw e (rw (← w) (ap (λ (t : Bytes). some t) (take-length-append x (flat xs))))
element_at n (suc i) (x ∷ xs) (w, ws) h =
    let e : suc i * n ≡ length x + i * n = omega arith in
    rw e (rw (drop-length-append x (flat xs) (i * n)) (element_at n i xs ws (omega arith)))

pub len-Views : (v : DynVec) (xs : List Bytes) → Views v xs → len v ≡ length xs
len-Views v xs h =
    rw h.bytes (rw (length-flat v.elem_size xs h.wide) (mul-div_cancel (length xs) h.some_width))

own : (me : ThreadId) (v : DynVec) → v.owner ≡ me → check_affinity v.owner me ≡ done tt
own me v e = ground arith

Wide-append : (n : ℕ) (xs ys : List Bytes) → Wide n xs → Wide n ys → Wide n (xs ++ ys)
Wide-append n [] ys w w' = w'
Wide-append n (x ∷ xs) ys (w, ws) w' = (w, Wide-append n xs ys ws w')

Wide-take : (n i : ℕ) (xs : List Bytes) → Wide n xs → Wide n (take i xs)
Wide-take n zero xs w = tt
Wide-take n (suc i) [] w = tt
Wide-take n (suc i) (x ∷ xs) (w, ws) = (w, Wide-take n i xs ws)

Wide-set : (n i : ℕ) (xs : List Bytes) (y : Bytes) → Wide n xs → length y ≡ n → Wide n (set xs i y)
Wide-set n i [] y w e = tt
Wide-set n zero (x ∷ xs) y (w, ws) e = (e, ws)
Wide-set n (suc i) (x ∷ xs) y (w, ws) e = (w, Wide-set n i xs y ws e)

flat-append : (xs ys : List Bytes) → flat (xs ++ ys) ≡ flat xs ++ flat ys
flat-append [] ys = refl
flat-append (x ∷ xs) ys = simp (flat-append xs ys, append_assoc)

flat-set :
    (xs : List Bytes) (i : ℕ) (y : Bytes)
    → i < length xs
    → flat (set xs i y) ≡ flat (take i xs) ++ (y ++ flat (drop (suc i) xs))
flat-set [] i y h = elim h [ ]
flat-set (x ∷ xs) zero y h = refl
flat-set (x ∷ xs) (suc i) y h = rw (flat-set xs i y (omega arith)) (sym (append_assoc x _ _))

length-take : (n : ℕ) (x : Bytes) → n ≤ length x → length (take n x) ≡ n
length-take zero x h = refl
length-take (suc n) [] h = elim h [ ]
length-take (suc n) (b ∷ x) h = ap suc (length-take n x (omega arith))

take_of_empty : (xs : List Bytes) → length xs ≡ 0 → take (length xs - 1) xs ≡ xs
take_of_empty [] h = refl
take_of_empty (x ∷ xs) h = absurd (omega arith)

module _ (me : ThreadId) (v : DynVec) (xs : List Bytes) (mine : v.owner ≡ me)
    (sees : Views v xs) where
  -- On a vec of the running thread that holds a list of elements of its width, which is not zero, a
  -- push of at least that many bytes succeeds, and the vec holds the list with the first bytes as
  -- one more element.
  pub push_lem :
      (elem : Bytes)
      → v.elem_size ≤ length elem
      → (v' : DynVec) × (bet_vec_push me v elem ≡ done v')
        × Views v' (xs ++ take v.elem_size elem ∷ [])
  unfolding bet_vec_push
  push_lem elem h = (
    record v { contents = v.contents ++ take v.elem_size elem },
    rw (own me v mine),
    record {
      wide =
          Wide-append v.elem_size xs (take v.elem_size elem ∷ []) sees.wide
            (length-take v.elem_size elem h, tt);
      bytes = rw (sees.bytes, flat-append xs (take v.elem_size elem ∷ [])) (rw append-nil);
      some_width = sees.some_width;
    },
  )

  -- On a vec of the running thread that holds a list of elements of its width, which is not zero, a
  -- get gives the element at the index, and nothing past the end; the length is the number of
  -- elements.
  pub get_lem :
      (idx : ℕ)
      → (bet_vec_get me v idx ≡ done (get_elem? xs idx)) × (bet_vec_len me v ≡ done (length xs))
  unfolding bet_vec_get bet_vec_len
  get_lem idx =
      let o = own me v mine in
      (
        rw o (elim (Bool-cases (leb (len v) idx)) [
          | inl past ↦
              rw past
                (ap done (sym (get_elem?-none xs idx (omega (tests, past, len-Views v xs sees)))))
          | inr within ↦ rw within (
              ap done (
                rw sees.bytes (
                  element_at v.elem_size idx xs sees.wide
                    (ground (arith, within, len-Views v xs sees)))))
        ]),
        rw o (ap done (len-Views v xs sees)),
      )

  -- On a vec of the running thread that holds a list of elements of its width, which is not zero, a
  -- set with at least that many bytes overwrites the element at an index in range and says so, and
  -- changes nothing past the end.
  pub set_lem :
      (idx : ℕ) (elem : Bytes)
      → v.elem_size ≤ length elem
      → (v' : DynVec) × (bet_vec_set me v idx elem ≡ done (ltb idx (length xs), v'))
        × Views v' (set xs idx (take v.elem_size elem))
  unfolding bet_vec_set
  set_lem idx elem h = elim (Bool-cases (leb (len v) idx)) [
    | inl past ↦
        let beyond : length xs ≤ idx = omega (tests, past, len-Views v xs sees) in
        (
          v,
          rw (own me v mine) (rw past (ground (arith, beyond))),
          rw (set_beyond xs idx (take v.elem_size elem) beyond) sees,
        )
    | inr within ↦
        let lt : idx < length xs = ground (arith, within, len-Views v xs sees) in
        let e : idx * v.elem_size + v.elem_size ≡ suc idx * v.elem_size = omega arith in
        (
          record v {
            contents =
                take (idx * v.elem_size) v.contents
                ++ (take v.elem_size elem ++ drop (idx * v.elem_size + v.elem_size) v.contents);
          },
          rw (own me v mine) (rw within (ground (arith, lt))),
          record {
            wide =
                Wide-set v.elem_size idx xs (take v.elem_size elem) sees.wide
                  (length-take v.elem_size elem h);
            bytes =
                rw (e, sees.bytes)
                  (rw (
                    take-flat v.elem_size idx xs sees.wide (omega arith),
                    drop-flat v.elem_size (suc idx) xs sees.wide (omega arith),
                    flat-set xs idx (take v.elem_size elem) lt,
                  ));
            some_width = sees.some_width;
          },
        )
  ]

  -- On a vec of the running thread that holds a list of elements of its width, which is not zero, a
  -- pop gives the last element and removes it, and gives nothing from an empty vec.
  pub pop_lem :
      (v' : DynVec) × (bet_vec_pop me v ≡ done (get_elem? xs (length xs - 1), v'))
      × Views v' (take (length xs - 1) xs)
  unfolding bet_vec_pop
  pop_lem = elim (Bool-cases (len v == 0)) [
    | inl none_left ↦
        let e : length xs ≡ 0 = ground (arith, none_left, len-Views v xs sees) in
        (
          v,
          rw (own me v mine) (
              rw none_left (
                ap (λ (o : Option Bytes). done (o, v))
                  (sym (get_elem?-none xs (length xs - 1) (omega arith))))),
          subst (Views v) (sym (take_of_empty xs e)) sees,
        )
    | inr some_left ↦
        let lt : length xs - 1 < length xs = ground (arith, some_left, len-Views v xs sees) in
        let start = (len v - 1) * v.elem_size in
        let n : len v ≡ length xs = len-Views v xs sees in
        (
          record v { contents = take start v.contents },
          rw (own me v mine) (
              rw some_left (
                ap (λ (o : Option Bytes). done (o, record v { contents = take start v.contents }))
                  (rw (n, sees.bytes) (element_at v.elem_size (length xs - 1) xs sees.wide lt)))),
          record {
            wide = Wide-take v.elem_size (length xs - 1) xs sees.wide;
            bytes =
                rw (n, sees.bytes)
                  (take-flat v.elem_size (length xs - 1) xs sees.wide (omega arith));
            some_width = sees.some_width;
          },
        )
  ]
