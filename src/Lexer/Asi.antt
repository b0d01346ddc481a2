-- ===== src/Lexer/Asi.antt =====
-- `apply_asi` of crates/frontend/src/lexer.rs against a description of the output alone: a newline
-- ends a statement exactly if the last token kept so far can end one.
use bet.Prelude.{◌≡◌, refl, ap, ◌∙◌, Bool, true, false, List, [], ◌∷◌, ◌++◌, if◌then◌else◌, All}
use bet.Lexer.Token.{
  Token, newline, semi, Spanned, ends_statement, Kind, a_newline, a_semi, significant, kind,
}

module _ {F : Type 0} where
  abbrev pub as_semi : Spanned F → Spanned F
  as_semi sp = record { tok = semi; span = sp.span }

  -- One round of `apply_asi`, by the kind of the token: what is pushed before the `rest`, which takes
  -- the flag `prev_ends` on.
  abbrev pub asi_arm : Kind → Spanned F → (Bool → List (Spanned F)) → Bool → List (Spanned F)
  asi_arm a_newline sp rest true = as_semi sp ∷ rest false
  asi_arm a_newline sp rest false = rest false
  asi_arm a_semi sp rest prev_ends = sp ∷ rest false
  asi_arm significant sp rest prev_ends = sp ∷ rest (ends_statement sp.tok)

  unfoldable pub asi_loop : List (Spanned F) → Bool → List (Spanned F)
  unfolding kind ends_statement
  asi_loop [] prev_ends = []
  asi_loop (sp ∷ raw) prev_ends = asi_arm (kind sp.tok) sp (asi_loop raw) prev_ends

  unfoldable pub apply_asi : List (Spanned F) → List (Spanned F)
  unfolding asi_loop
  apply_asi raw = asi_loop raw false

  -- Whether the last token of a list can end a statement; `before` for the empty list.
  abbrev pub last_ends : Bool → List (Spanned F) → Bool
  last_ends before [] = before
  last_ends before (sp ∷ out) = last_ends (ends_statement sp.tok) out

  semi-ends : (t : Token F) → kind t ≡ a_semi → ends_statement t ≡ false
  unfolding kind ends_statement
  semi-ends semi e = refl
  semi-ends newline e = refl
  semi-ends t e = cc

  asi_loop-append :
      (xs ys : List (Spanned F)) (b : Bool)
      → asi_loop (xs ++ ys) b ≡ asi_loop xs b ++ asi_loop ys (last_ends b (asi_loop xs b))
  unfolding asi_loop
  asi_loop-append [] ys b = refl
  asi_loop-append (x ∷ xs) ys b = arm (kind x.tok) refl b (asi_loop-append xs ys)
    where
      arm :
          (k : Kind)
          → kind x.tok ≡ k
          → (b : Bool)
          → ((b : Bool)
              → asi_loop (xs ++ ys) b ≡ asi_loop xs b ++ asi_loop ys (last_ends b (asi_loop xs b)))
          → asi_arm k x (asi_loop (xs ++ ys)) b
            ≡ asi_arm k x (asi_loop xs) b ++ asi_loop ys (last_ends b (asi_arm k x (asi_loop xs) b))
      arm a_newline e true ih = ap (λ (l : List (Spanned F)). as_semi x ∷ l) (ih false)
      arm a_newline e false ih = ih false
      arm a_semi e b ih =
          rw (semi-ends x.tok e, last_ends) (ap (λ (l : List (Spanned F)). x ∷ l) (ih false))
      arm significant e b ih = ap (λ (l : List (Spanned F)). x ∷ l) (ih (ends_statement x.tok))

  -- Whether a newline ends the statement depends only on the last token kept before it: if that can
  -- end a statement the newline becomes a `;` at its place, otherwise it is dropped, and either way
  -- the rest is treated as after a token that cannot end one.
  pub apply_asi-newline :
      (xs ys : List (Spanned F)) (sp : Spanned F)
      → sp.tok ≡ newline
      → apply_asi (xs ++ sp ∷ ys)
        ≡ apply_asi xs
          ++ (if last_ends false (apply_asi xs)
              then as_semi sp ∷ asi_loop ys false
              else asi_loop ys false)
  unfolding apply_asi
  apply_asi-newline xs ys sp e =
      asi_loop-append xs (sp ∷ ys) false
      ∙ ap (λ (l : List (Spanned F)). asi_loop xs false ++ l)
          (arm (last_ends false (asi_loop xs false)))
    where
      arm :
          (b : Bool)
          → asi_loop (sp ∷ ys) b ≡ (if b then as_semi sp ∷ asi_loop ys false else asi_loop ys false)
      arm true = ap (λ (t : Token F). asi_arm (kind t) sp (asi_loop ys) true) e
      arm false = ap (λ (t : Token F). asi_arm (kind t) sp (asi_loop ys) false) e

  -- The tokens that are neither newlines nor separators.
  abbrev pub keep : Kind → Spanned F → List (Spanned F) → List (Spanned F)
  keep significant sp rest = sp ∷ rest
  keep _ sp rest = rest

  abbrev pub significants : List (Spanned F) → List (Spanned F)
  significants [] = []
  significants (sp ∷ xs) = keep (kind sp.tok) sp (significants xs)

  abbrev pub IsNewline : Spanned F → Type 0
  IsNewline sp = kind sp.tok ≡ a_newline

  -- The loop keeps every significant token, in order, and leaves no newline.
  asi_loop_sound :
      (xs : List (Spanned F)) (b : Bool)
      → (significants (asi_loop xs b) ≡ significants xs)
        × All (λ sp. ¬ IsNewline sp) (asi_loop xs b)
  unfolding asi_loop
  asi_loop_sound [] b = (refl, tt)
  asi_loop_sound (x ∷ xs) b = arm (kind x.tok) refl b (asi_loop_sound xs)
    where
      arm :
          (k : Kind)
          → kind x.tok ≡ k
          → (b : Bool)
          → ((b : Bool)
              → (significants (asi_loop xs b) ≡ significants xs)
                × All (λ sp. ¬ IsNewline sp) (asi_loop xs b))
          → (significants (asi_arm k x (asi_loop xs) b) ≡ keep k x (significants xs))
            × All (λ sp. ¬ IsNewline sp) (asi_arm k x (asi_loop xs) b)
      arm a_newline e true ih = ((ih false).0, (λ n. cc, (ih false).1))
      arm a_newline e false ih = ih false
      arm a_semi e b ih = (rw e (ih false).0, (λ n. cc, (ih false).1))
      arm significant e b ih = (
        rw e (ap (λ (l : List (Spanned F)). x ∷ l) (ih (ends_statement x.tok)).0),
        (λ n. cc, (ih (ends_statement x.tok)).1),
      )

  asi_loop-clean :
      (xs : List (Spanned F)) (b : Bool) → All (λ sp. ¬ IsNewline sp) xs → asi_loop xs b ≡ xs
  unfolding asi_loop
  asi_loop-clean [] b n = refl
  asi_loop-clean (x ∷ xs) b (n, ns) = arm (kind x.tok) refl (λ b. asi_loop-clean xs b ns)
    where
      arm :
          (k : Kind)
          → kind x.tok ≡ k
          → ((b : Bool) → asi_loop xs b ≡ xs)
          → asi_arm k x (asi_loop xs) b ≡ x ∷ xs
      arm a_newline e rest = absurd (n e)
      arm a_semi e rest = ap (λ (l : List (Spanned F)). x ∷ l) (rest false)
      arm significant e rest = ap (λ (l : List (Spanned F)). x ∷ l) (rest (ends_statement x.tok))

  -- For every token list the pass leaves no newline, keeps every significant token in its order,
  -- and changes nothing when it is run again.
  pub apply_asi_sound :
      (raw : List (Spanned F))
      → All (λ sp. ¬ IsNewline sp) (apply_asi raw)
        × (significants (apply_asi raw) ≡ significants raw)
        × (apply_asi (apply_asi raw) ≡ apply_asi raw)
  unfolding apply_asi
  apply_asi_sound raw =
      let s = asi_loop_sound raw false in (s.1, s.0, asi_loop-clean (asi_loop raw false) false s.1)

  -- A `;` directly behind a newline which has ended a statement is kept beside the `;` that stands
  -- for the newline.
  pub apply_asi_stacks :
      (xs ys : List (Spanned F)) (nl sc : Spanned F)
      → nl.tok ≡ newline
      → sc.tok ≡ semi
      → last_ends false (apply_asi xs) ≡ true
      → apply_asi (xs ++ nl ∷ sc ∷ ys) ≡ apply_asi xs ++ as_semi nl ∷ sc ∷ asi_loop ys false
  apply_asi_stacks xs ys nl sc e f h =
      apply_asi-newline xs (sc ∷ ys) nl e
      ∙ ap
          (λ (b : Bool).
            apply_asi xs
            ++ (if b then as_semi nl ∷ asi_loop (sc ∷ ys) false else asi_loop (sc ∷ ys) false))
          h
      ∙ ap (λ (l : List (Spanned F)). apply_asi xs ++ as_semi nl ∷ l) explicit
    where
      explicit : asi_loop (sc ∷ ys) false ≡ sc ∷ asi_loop ys false
      explicit = unfold asi_loop in ap (λ (t : Token F). asi_arm (kind t) sc (asi_loop ys) false) f
