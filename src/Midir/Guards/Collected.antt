-- ===== src/Midir/Guards/Collected.antt =====
-- That `collect_downcast_sites` of crates/midir/src/validate.rs misses no `Downcast` of a function.
use bet.Prelude.{
  ℕ, zero, suc, ◌+◌, ◌≡◌, refl, sym, ap, subst, some, List, [], ◌∷◌, ◌++◌, All, All-append,
  get_elem?, get_elem?-All, arith,
}
use bet.Midir.Ir.{
  Operand, copy, moved, const, Place, place, Projs, no_proj, then_proj, Proj, downcast, index,
  direct, indirect, extern, struct_lit, sum_variant, Rvalue, use_of, bin_op, un_op, cast, call,
  aggregate, simd, discriminant, cop, trust, str_ptr, str_len, slice_ptr, slice_len, addr_of,
  make_slice, crib_new, crib_global, size_of, make_str, Stmt, assign, evict, evict_slot, nop,
  Terminator, goto, branch, switch, holla_check, return, panic, unreachable, Block, Func,
}
use bet.Midir.Guards.Sites.{
  DowncastSite, snoc, sites_in_place, sites_in_projs, sites_in_proj, sites_in_operand,
  sites_in_operands, sites_in_fields, sites_in_rvalue, sites_in_term, sites_in_stmt, sites_in_stmts,
  sites_from, collect_downcast_sites,
}
use bet.Midir.Validate.Operands.{values_of, rvalue_operands, stmt_operands, term_operands}
use bet.Midir.Guards.Occurs.{joined, Reads, Within, here, inside, Occurs, in_stmt, in_term}

joined-snoc :
    (before : Projs) (p : Proj) (after : Projs)
    → joined (snoc before p) after ≡ joined before (then_proj p after)
joined-snoc no_proj p after = refl
joined-snoc (then_proj q before) p after = ap (then_proj q) (joined-snoc before p after)

joined-no_proj : (before : Projs) → joined before no_proj ≡ before
joined-no_proj no_proj = refl
joined-no_proj (then_proj q before) = ap (then_proj q) (joined-no_proj before)

module _ (P : DowncastSite → Type 0) where
  -- The sites of one projection are among those of the place.
  at_proj :
      (block l : ℕ) (acc before : Projs) (p : Proj) (after : Projs)
      → All P (sites_in_projs block l acc (joined before (then_proj p after)))
      → All P (sites_in_proj block l (joined acc before) p)
  unfolding sites_in_projs
  at_proj block l acc no_proj p after all =
      subst (λ (b : Projs). All P (sites_in_proj block l b p)) (sym (joined-no_proj acc))
        (All-append P (sites_in_proj block l acc p) _ all).0
  at_proj block l acc (then_proj x before) p after all =
      subst (λ (b : Projs). All P (sites_in_proj block l b p)) (joined-snoc acc x before)
        (at_proj block l (snoc acc x) before p after
          (All-append P (sites_in_proj block l acc x) _ all).1)

  at_place :
      (block : ℕ) {p : Place} (l : ℕ) (before : Projs) (x : Proj) (after : Projs)
      → p ≡ place l (joined before (then_proj x after))
      → All P (sites_in_place block p)
      → All P (sites_in_proj block l before x)
  unfolding sites_in_place
  at_place block l before x after e all =
      at_proj block l no_proj before x after (subst (λ q. All P (sites_in_place block q)) e all)

  at_read :
      (block : ℕ) (op : Operand) (q : Place)
      → Reads op q
      → All P (sites_in_operand block op)
      → All P (sites_in_place block q)
  unfolding sites_in_operand
  at_read block (copy p) q e all = subst (λ r. All P (sites_in_place block r)) e all
  at_read block (moved p) q e all = subst (λ r. All P (sites_in_place block r)) e all
  at_read block (const c) q e all = absurd e

  Within-All :
      (block : ℕ) (prefix : Place) (v : ℕ) (p : Place)
      → Within prefix v p
      → All P (sites_in_place block p)
      → P (record { block = block; prefix = prefix; variant = v })
  unfolding sites_in_proj
  Within-All block prefix v p (here l before after e q) all =
      subst (λ (r : Place). P (record { block = block; prefix = r; variant = v })) (sym q)
        (at_place block l before (downcast v) after e all).0
  Within-All block prefix v p (inside l before after op q e r w) all =
      Within-All block prefix v q w
        (at_read block op q r (at_place block l before (index op) after e all))

  values-All :
      (block : ℕ) (fields : List (ℕ × Operand))
      → All P (sites_in_fields block fields)
      → All (λ op. All P (sites_in_operand block op)) (values_of fields)
  values-All block [] all = tt
  values-All block (q ∷ fields) all =
      let a = All-append P (sites_in_operand block q.1) _ all in (a.0, values-All block fields a.1)

  operands-All :
      (block : ℕ) (ops : List Operand)
      → All P (sites_in_operands block ops)
      → All (λ op. All P (sites_in_operand block op)) ops
  operands-All block [] all = tt
  operands-All block (op ∷ ops) all =
      let a = All-append P (sites_in_operand block op) _ all in (a.0, operands-All block ops a.1)

  two-All :
      (block : ℕ) (a b : Operand)
      → All P (sites_in_operand block a ++ sites_in_operand block b)
      → All (λ op. All P (sites_in_operand block op)) (a ∷ b ∷ [])
  two-All block a b all = let s = All-append P (sites_in_operand block a) _ all in (s.0, (s.1, tt))

  rvalue-All :
      (block : ℕ) (rv : Rvalue)
      → All P (sites_in_rvalue block rv)
      → All (λ op. All P (sites_in_operand block op)) (rvalue_operands rv)
  unfolding sites_in_rvalue sites_in_operand
  rvalue-All block (use_of op) all = (all, tt)
  rvalue-All block (un_op o op) all = (all, tt)
  rvalue-All block (cast op ty kind) all = (all, tt)
  rvalue-All block (discriminant op) all = (all, tt)
  rvalue-All block (str_ptr op) all = (all, tt)
  rvalue-All block (str_len op) all = (all, tt)
  rvalue-All block (slice_ptr op) all = (all, tt)
  rvalue-All block (slice_len op) all = (all, tt)
  rvalue-All block (bin_op o a b mode) all = two-All block a b all
  rvalue-All block (trust a b) all = two-All block a b all
  rvalue-All block (call (direct id) args) all = operands-All block args all
  rvalue-All block (call (extern id) args) all = operands-All block args all
  rvalue-All block (call (indirect op) args) all =
      let a = All-append P (sites_in_operand block op) _ all in (a.0, operands-All block args a.1)
  rvalue-All block (aggregate kind ops) all = operands-All block ops all
  rvalue-All block (simd op args ty) all = operands-All block args all
  rvalue-All block (cop crib (struct_lit id fields)) all =
      let a = All-append P (sites_in_operand block crib) _ all in (a.0, values-All block fields a.1)
  rvalue-All block (cop crib (sum_variant id v ops)) all =
      let a = All-append P (sites_in_operand block crib) _ all in (a.0, operands-All block ops a.1)
  rvalue-All block (addr_of p) all = (all, tt)
  rvalue-All block (make_slice d len elem) all = two-All block d len all
  rvalue-All block (make_str d len) all = two-All block d len all
  rvalue-All block (crib_new elem capacity) all = tt
  rvalue-All block (crib_global id) all = tt
  rvalue-All block (size_of ty) all = tt

  stmt-All :
      (block : ℕ) (s : Stmt)
      → All P (sites_in_stmt block s)
      → All (λ op. All P (sites_in_operand block op)) (stmt_operands s)
  unfolding sites_in_operand
  stmt-All block nop all = tt
  stmt-All block (evict op) all = (all, tt)
  stmt-All block (evict_slot crib tag) all = two-All block crib tag all
  stmt-All block (assign p rv) all =
      let a = All-append P (sites_in_place block p) _ all in (a.0, rvalue-All block rv a.1)

  term-All :
      (block : ℕ) (t : Terminator)
      → All P (sites_in_term block t)
      → All (λ op. All P (sites_in_operand block op)) (term_operands t)
  unfolding sites_in_term sites_in_operand
  term-All block (goto bb) all = tt
  term-All block unreachable all = tt
  term-All block (branch cond then_bb else_bb) all = (all, tt)
  term-All block (switch scrutinee cases default) all = (all, tt)
  term-All block (holla_check tag crib resolved live dead) all =
      let a = All-append P (sites_in_operand block tag) _ all in
      let b = All-append P (sites_in_operand block crib) _ a.1 in (a.0, (b.0, (b.1, tt)))
  term-All block (return vals) all = operands-All block vals all
  term-All block (panic op) all = (all, tt)

  stmts-All :
      (block i : ℕ) (ss : List Stmt) (s : Stmt)
      → All P (sites_in_stmts block ss)
      → get_elem? ss i ≡ some s
      → All P (sites_in_stmt block s)
  stmts-All block i [] s all e = cc
  stmts-All block zero (x ∷ ss) s all e =
      let q : x ≡ s = cc in
      subst (λ (y : Stmt). All P (sites_in_stmt block y)) q
        (All-append P (sites_in_stmt block x) _ all).0
  stmts-All block (suc i) (x ∷ ss) s all e =
      stmts-All block i ss s (All-append P (sites_in_stmt block x) _ all).1 e

  blocks-All :
      (i j : ℕ) (bs : List Block) (b : Block)
      → All P (sites_from i bs)
      → get_elem? bs j ≡ some b
      → All P (sites_in_stmts (i + j) b.stmts) × All P (sites_in_term (i + j) b.term)
  blocks-All i j [] b all e = cc
  blocks-All i zero (x ∷ bs) b all e =
      let q : x ≡ b = cc in
      let plain : i + 0 ≡ i = omega arith in
      let a = All-append P (sites_in_stmts i x.stmts) _ all in
      let t = All-append P (sites_in_term i x.term) _ a.1 in
      rw plain (
        subst (λ (y : Block). All P (sites_in_stmts i y.stmts) × All P (sites_in_term i y.term)) q
          (a.0, t.0))
  blocks-All i (suc j) (x ∷ bs) b all e =
      let shift : i + suc j ≡ suc i + j = omega arith in
      let a = All-append P (sites_in_stmts i x.stmts) _ all in
      let t = All-append P (sites_in_term i x.term) _ a.1 in
      rw shift (blocks-All (suc i) j bs b t.1 e)

  -- A `Downcast` of a place that an operand reads, where the sites of the operand are known.
  in_operand :
      (block : ℕ) (prefix : Place) (v k : ℕ) (ops : List Operand) (op : Operand) (q : Place)
      → All (λ o. All P (sites_in_operand (0 + block) o)) ops
      → get_elem? ops k ≡ some op
      → Reads op q
      → Within prefix v q
      → P (record { block = block; prefix = prefix; variant = v })
  in_operand block prefix v k ops op q all at reads w =
      let plain : 0 + block ≡ block = omega arith in
      Within-All block prefix v q w (
        at_read block op q reads (
          subst (λ (i : ℕ). All P (sites_in_operand i op)) plain (get_elem?-All _ ops k op all at)))

  -- What holds of every site that is collected holds of every `Downcast` of the function.
  pub collected-All :
      (f : Func) (block : ℕ) (prefix : Place) (v : ℕ)
      → All P (collect_downcast_sites f)
      → Occurs f block prefix v
      → P (record { block = block; prefix = prefix; variant = v })
  unfolding collect_downcast_sites
  collected-All f block prefix v all (in_stmt b i k s op q at_b at_s at_op reads w) =
      let a = (blocks-All 0 block f.blocks b all at_b).0 in
      in_operand block prefix v k (stmt_operands s) op q
        (stmt-All (0 + block) s (stmts-All (0 + block) i b.stmts s a at_s)) at_op reads w
  collected-All f block prefix v all (in_term b k op q at_b at_op reads w) =
      let a = (blocks-All 0 block f.blocks b all at_b).1 in
      in_operand block prefix v k (term_operands b.term) op q (term-All (0 + block) b.term a) at_op
        reads w
