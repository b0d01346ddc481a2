-- ===== src/Handles/Agree.antt =====
-- Every store of tags answers a program's requests as the flags do.
use bet.Prelude.{suc, ◌≡◌, refl, ap, sym, ◌∙◌, Bool, true, some, List, [], ◌∷◌, length, get_elem?}
use bet.Handles.{
  TagStore, Request, cop_next, evict_all, evict_tag, holla, free_at, then_run, answered, run, flag,
  answers,
}
use bet.Handles.Flags.{
  Entries, tags, flags, Rel, copped, none_left, evicted, flags-none_left, tags-none_left,
  Rel-weaken, lowered, flags-lowered, tags-lowered, asked, freed,
}

module _ (T : TagStore) where
  run_lem :
      (qs : List Request) (s : T.Store) (es : Entries T)
      → T.Room (length qs) s
      → Rel T (length qs) s es
      → run T s (tags T es) qs ≡ some (answers (flags T es) qs)
  unfolding run answers
  run_lem [] s es r h = refl
  run_lem (cop_next ∷ qs) s es r h =
      let l = T.cop_law (length qs) s r in
      let c = copped T (length qs) s l.0.1 l.0.0 l.4 l.5 es h in
      ap (then_run T (tags T es) (λ s' ts'. run T s' ts' qs)) l.1
      ∙ run_lem qs l.0.1 ((l.0.0, true) ∷ es) l.2 (l.3, c.1, c.0)
  run_lem (evict_all ∷ qs) s es r h =
      let l = T.evict_law (length qs) s r in
      ap (λ (ts : List T.Tag). run T (T.evict s) ts qs) (sym (tags-none_left T es))
      ∙ run_lem qs (T.evict s) (none_left T es) l.0
          (evicted T (length qs) s (T.evict s) l.1 l.2 es h)
      ∙ ap (λ (bs : List Bool). some (answers bs qs)) (flags-none_left T es)
  run_lem (evict_tag k ∷ qs) s es r h =
      let s' = free_at T s (get_elem? (tags T es) k) in
      let l = freed T (length qs) s es k r h in
      ap (λ (ts : List T.Tag). run T s' ts qs) (sym (tags-lowered T es k))
      ∙ run_lem qs s' (lowered T es k) l.0 l.1
      ∙ ap (λ (bs : List Bool). some (answers bs qs)) (flags-lowered T es k)
  run_lem (holla k ∷ qs) s es r h =
      let a = asked T (suc (length qs)) s es k h in
      let ih = run_lem qs s es (T.Room-weaken (length qs) s r) (Rel-weaken T (length qs) s es h) in
      ap (λ (b : Bool). answered T b (run T s (tags T es) qs)) a
      ∙ ap (answered T (flag (get_elem? (flags T es) k))) ih

  pub run-answers :
      (s : T.Store) (qs : List Request)
      → T.Room (length qs) s
      → run T s [] qs ≡ some (answers [] qs)
  run-answers s qs r = run_lem qs s [] r tt

-- Two stores that have room for a program's requests answer them alike.
pub stores_agree :
    (S T : TagStore) (s : S.Store) (t : T.Store) (qs : List Request)
    → S.Room (length qs) s
    → T.Room (length qs) t
    → run S s [] qs ≡ run T t [] qs
stores_agree S T s t qs p q = run-answers S s qs p ∙ sym (run-answers T t qs q)
