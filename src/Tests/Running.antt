-- ===== src/Tests/Running.antt =====
-- Runs of the interpreter's integers and arenas.
use bet.Prelude.{
  ◌+◌, ◌*◌, ◌<◌, List, zero, suc, contains, get_elem?, ℕ, ◌↔◌, ◌^◌, ◌≡◌, ◌≢◌, refl, true, false,
  ◌&&◌, ◌==◌, none, some, [], ◌∷◌, arith, if◌then◌else◌,
}
use bet.Midir.Ir.{ℤ, pos, negsuc}
use bet.Interp.Value.{
  IntTy, int, ok, fails, panics, overflow, addition, div_by_zero, division, remainder,
}
use bet.Interp.Whole.{rem_euclid}
use bet.Interp.Ints.{
  add, sub, div, rem_op, least, shl, shr, word, wrap_to, int_binary, arithmetic, divide, trapped,
  store_unsigned, operand_u64, combine_int_ty, exact, shift_right,
}
use bet.Interp.Ints.Fits.{IsIntTy, Fits, wrap_to_lem}
use bet.Interp.Ints.Exact.{sub_exact, unsigned_arithmetic, modulo}
use bet.Interp.Whole.Quotients.{Divides}
use bet.Interp.Ints.Divided.{signed_division}
use bet.Interp.Ints.DividedUnsigned.{unsigned_division}
use bet.Interp.Ints.Held.{Holds, int_binary-Holds}
use bet.Interp.Arena.{Arena, alloc, resolve, evict, evict_slot, write_slot}
use bet.Runtime.Typed
use bet.Runtime.Typed.{SlotMeta, TypedCrib, new_typed}
use bet.Runtime.Typed.Valid.{IsValid, vacant}
use bet.Handles.{Request, cop_next, evict_all, evict_tag, holla, run, answers}
use bet.Handles.Slab.{Young}
use bet.Handles.Checked.{slab}
use bet.Handles.Grown.{grown}
use bet.Handles.Fresh.{new_arena, fresh_agree, served_after_evict}
use bet.Interp.Arena.Refines.{arena_refines, replaced}

abbrev i8 : IntTy
i8 = record { bits = 8; signed = true }

abbrev u8 : IntTy
u8 = record { bits = 8; signed = false }

i8-IsIntTy : IsIntTy i8
i8-IsIntTy = record { some_bits = omega arith; bits_fit = omega arith }

u8-IsIntTy : IsIntTy u8
u8-IsIntTy = record { some_bits = omega arith; bits_fit = omega arith }

-- 200 as an `i8` is -56.
wrapped : wrap_to (pos 200) i8 ≡ negsuc 55
unfolding wrap_to
wrapped = refl

wrap_to_lem_example :
    Fits i8 (wrap_to (pos 200) i8)
    × (rem_euclid (wrap_to (pos 200) i8) (2 ^ 8) ≡ rem_euclid (pos 200) (2 ^ 8))
    × ((wrap_to (pos 200) i8 ≡ pos 200) ↔ Fits i8 (pos 200))
wrap_to_lem_example = wrap_to_lem (pos 200) i8 i8-IsIntTy

-- `100 + 100` overflows an `i8`, `5u8 - 10u8` is 251, `-7 / 2` is -3 and `-7 >> 1` is -4.
sum_traps : int_binary add (pos 100) i8 (pos 100) i8 ≡ fails (overflow addition)
unfolding int_binary combine_int_ty arithmetic trapped wrap_to
sum_traps = refl

difference_wraps : int_binary sub (pos 5) u8 (pos 10) u8 ≡ ok (int (pos 251) u8)
unfolding int_binary combine_int_ty arithmetic store_unsigned operand_u64
difference_wraps = refl

quotient : int_binary div (negsuc 6) word (pos 2) word ≡ ok (int (negsuc 2) word)
unfolding int_binary combine_int_ty divide wrap_to
quotient = refl

-- `256` at the width of a `u8` is 0, past the test for a zero divisor.
host_division : int_binary div (pos 5) u8 (pos 256) word ≡ panics
unfolding int_binary combine_int_ty divide operand_u64
host_division = refl

halved : int_binary shr (negsuc 6) word (pos 1) word ≡ ok (int (negsuc 3) word)
unfolding int_binary combine_int_ty shift_right wrap_to
halved = refl

i8_stays : (combine_int_ty i8 i8).signed ≡ true
unfolding combine_int_ty
i8_stays = refl

abbrev minus_seven : ℤ
minus_seven = negsuc 6

minus_seven-Fits : Fits (combine_int_ty i8 i8) minus_seven
unfolding combine_int_ty
minus_seven-Fits = omega arith

signed_division_example :
    (pos 2 ≡ pos 0
      → (int_binary div minus_seven i8 (pos 2) i8 ≡ fails div_by_zero)
        × (int_binary rem_op minus_seven i8 (pos 2) i8 ≡ fails div_by_zero))
    × (minus_seven ≡ least (combine_int_ty i8 i8).bits
        → pos 2 ≡ negsuc 0
        → (int_binary div minus_seven i8 (pos 2) i8 ≡ fails (overflow division))
          × (int_binary rem_op minus_seven i8 (pos 2) i8 ≡ fails (overflow remainder)))
    × (pos 2 ≢ pos 0
        → ¬ ((minus_seven ≡ least (combine_int_ty i8 i8).bits) × (pos 2 ≡ negsuc 0))
        → (q : ℤ) × (r : ℤ) × (int_binary div minus_seven i8 (pos 2) i8
            ≡ ok (int q (combine_int_ty i8 i8)))
          × (int_binary rem_op minus_seven i8 (pos 2) i8 ≡ ok (int r (combine_int_ty i8 i8)))
          × Fits (combine_int_ty i8 i8) q
          × Fits (combine_int_ty i8 i8) r
          × Divides minus_seven (pos 2) q r)
signed_division_example =
    signed_division minus_seven i8 (pos 2) i8 i8-IsIntTy i8-IsIntTy i8_stays minus_seven-Fits

u8_stays : (combine_int_ty u8 u8).signed ≡ false
unfolding combine_int_ty
u8_stays = refl

unsigned_division_example :
    (pos 3 ≡ pos 0
      → (int_binary div (pos 200) u8 (pos 3) u8 ≡ fails div_by_zero)
        × (int_binary rem_op (pos 200) u8 (pos 3) u8 ≡ fails div_by_zero))
    × (pos 3 ≢ pos 0
        → operand_u64 (pos 3) (combine_int_ty u8 u8) ≡ 0
        → (int_binary div (pos 200) u8 (pos 3) u8 ≡ panics)
          × (int_binary rem_op (pos 200) u8 (pos 3) u8 ≡ panics))
    × (operand_u64 (pos 3) (combine_int_ty u8 u8) ≢ 0
        → (q : ℤ) × (r : ℤ) × (int_binary div (pos 200) u8 (pos 3) u8
            ≡ ok (int q (combine_int_ty u8 u8)))
          × (int_binary rem_op (pos 200) u8 (pos 3) u8 ≡ ok (int r (combine_int_ty u8 u8)))
          × Fits (combine_int_ty u8 u8) q
          × Fits (combine_int_ty u8 u8) r
          × (operand_u64 (pos 200) (combine_int_ty u8 u8)
              ≡ operand_u64 q (combine_int_ty u8 u8) * operand_u64 (pos 3) (combine_int_ty u8 u8)
                + operand_u64 r (combine_int_ty u8 u8))
          × (operand_u64 r (combine_int_ty u8 u8) < operand_u64 (pos 3) (combine_int_ty u8 u8)))
unsigned_division_example = unsigned_division (pos 200) u8 (pos 3) u8 u8-IsIntTy u8-IsIntTy u8_stays

unsigned_arithmetic_example :
    (w : ℤ) × (int_binary sub (pos 5) u8 (pos 10) u8 ≡ ok (int w (combine_int_ty u8 u8)))
    × Fits (combine_int_ty u8 u8) w
    × (operand_u64 w (combine_int_ty u8 u8)
        ≡ modulo
            (2 ^ (combine_int_ty u8 u8).bits)
            sub
            (operand_u64 (pos 5) (combine_int_ty u8 u8))
            (operand_u64 (pos 10) (combine_int_ty u8 u8)))
unsigned_arithmetic_example =
    unsigned_arithmetic sub (pos 5) u8 (pos 10) u8 sub_exact u8-IsIntTy u8-IsIntTy u8_stays

int_binary-Holds_example : Holds (combine_int_ty u8 u8) (int_binary shl (pos 200) u8 (pos 1) u8)
int_binary-Holds_example = int_binary-Holds shl (pos 200) u8 (pos 1) u8 u8-IsIntTy u8-IsIntTy

-- Two slots, of which the first was freed once.
abbrev two_slots : Arena ℕ
two_slots = record {
  slots =
      record { value = 4; generation = 1; live = false }
      ∷ record { value = 7; generation = 0; live = true }
      ∷ [];
  typed = true;
}

reused : (alloc 9 two_slots).0 ≡ (0, 1)
unfolding alloc
reused = refl

arena_refines_example :
    (resolve two_slots (alloc 9 two_slots).0.0 (alloc 9 two_slots).0.1 ≡ none)
    × ((s g : ℕ)
        → resolve (alloc 9 two_slots).1 s g ≡ (
            if (s == (alloc 9 two_slots).0.0) && (g == (alloc 9 two_slots).0.1)
            then some 9
            else resolve two_slots s g))
    × ((s g : ℕ) → resolve (evict two_slots) s g ≡ none)
    × ((i j s g : ℕ)
        → resolve (evict_slot i j two_slots) s g
          ≡ (if (s == i) && (g == j) then none else resolve two_slots s g))
    × ((i j s g : ℕ)
        → resolve (write_slot i j 9 two_slots) s g ≡ (
            if (s == i) && (g == j)
            then replaced 9 (resolve two_slots s g)
            else resolve two_slots s g))
arena_refines_example = arena_refines two_slots 9

-- Two tags, of which the newer is freed and its slot reused, and then everything is.
abbrev requests : List Request
requests =
    cop_next
    ∷ cop_next
    ∷ evict_tag 0
    ∷ holla 0
    ∷ holla 1
    ∷ cop_next
    ∷ holla 1
    ∷ evict_all
    ∷ holla 2
    ∷ []

requests_answered : answers [] requests ≡ false ∷ true ∷ false ∷ false ∷ []
unfolding answers
requests_answered = refl

fresh_agree_example :
    (run slab (new_typed 8 8 16 4096) [] requests ≡ some (answers [] requests))
    × (run (grown {A = ℕ} 7) new_arena [] requests ≡ some (answers [] requests))
fresh_agree_example = fresh_agree 7 8 8 16 4096 requests (omega arith) (omega arith) (omega arith)

-- A crib of elements without bytes has a null slab: the runtime ghosts the tag it has just handed out,
-- and the interpreter resolves it.
no_bytes_ghosted : run slab (new_typed 0 1 4 0) [] (cop_next ∷ holla 0 ∷ []) ≡ some (false ∷ [])
unfolding run new_typed Typed.push_range Typed.cop Typed.holla_check Typed.live
no_bytes_ghosted = refl

no_bytes_resolved : run (grown {A = ℕ} 7) new_arena [] (cop_next ∷ holla 0 ∷ []) ≡ some (true ∷ [])
unfolding run alloc resolve
no_bytes_resolved = refl

-- A crib of the runtime with no free slot, which an eviction makes room in.
abbrev taken_slot : SlotMeta
taken_slot = record { occupied = true; generation = 5 }

abbrev all_taken : TypedCrib
all_taken = record {
  elem_size = 8;
  elem_align = 8;
  base = 4096;
  slots = taken_slot ∷ taken_slot ∷ [];
  free = [];
}

all_taken_exact : (i : ℕ) → contains [] i ≡ vacant (get_elem? all_taken.slots i)
all_taken_exact zero = refl
all_taken_exact (suc zero) = refl
all_taken_exact (suc (suc i)) = refl

all_taken-IsValid : IsValid all_taken
all_taken-IsValid = record { small = omega arith; once = refl; exact = all_taken_exact }

all_taken-Young : Young 3 all_taken.slots
all_taken-Young zero m e = let q : taken_slot ≡ m = cc in rw (← q) (omega arith)
all_taken-Young (suc zero) m e = let q : taken_slot ≡ m = cc in rw (← q) (omega arith)
all_taken-Young (suc (suc i)) m e = cc

served_after_evict_example :
    run slab (Typed.evict all_taken) [] (cop_next ∷ holla 0 ∷ []) ≡ some (true ∷ [])
unfolding answers
served_after_evict_example =
    served_after_evict all_taken (cop_next ∷ holla 0 ∷ []) all_taken-IsValid (omega arith)
      (omega arith) all_taken-Young
