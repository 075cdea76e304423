-- ===== src/Stream/Lines/Split.antt =====
-- Splitting a text into lines chunk by chunk, and at once.
use mathlib.Core.List.{map, flatten, map-append}
use amazon_s3_encryption_cli.Prelude.{
  ◌≡◌, refl, sym, ap, ◌∙◌, Bool, true, ℕ, Bytes, List, [], ◌∷◌, ◌++◌, append_assoc, append-nil,
  Bool-cases, inl, inr, ◌⊎◌,
}
use amazon_s3_encryption_cli.Errors.{ok}
use amazon_s3_encryption_cli.Stream.Lines.{
  ends_line, cons_line, lines, kept, splitlines, init, last, yield_lines, lines_of_chunks,
}

-- A text that is one line, with its end or without.
abbrev IsLine : Bytes → Type 0
IsLine l = lines l ≡ l ∷ []

abbrev AreLines : List Bytes → Type 0
AreLines [] = Unit
AreLines (l ∷ ls) = IsLine l × AreLines ls

cons_line-AreLines : (x : ℕ) (ls : List Bytes) → AreLines ls → AreLines (cons_line x ls)
unfolding lines
cons_line-AreLines x [] h = (refl, tt)
cons_line-AreLines x (l ∷ ls) (h, rest) = elim (Bool-cases (ends_line x l)) [
  | inl apart ↦ rw apart (refl, (h, rest))
  | inr joined ↦ rw joined (ap (cons_line x) h ∙ rw joined refl, rest)
]

lines-AreLines : (text : Bytes) → AreLines (lines text)
unfolding lines
lines-AreLines [] = tt
lines-AreLines (x ∷ text) = cons_line-AreLines x (lines text) (lines-AreLines text)

-- The first of the lines of a text that is not empty starts as the text does.
lines-first :
    (x : ℕ) (text : Bytes) → (l : Bytes) × (ls : List Bytes) × (lines (x ∷ text) ≡ (x ∷ l) ∷ ls)
unfolding lines
lines-first x text = go (lines text)
  where
    go : (ls : List Bytes) → (l : Bytes) × (ms : List Bytes) × (cons_line x ls ≡ (x ∷ l) ∷ ms)
    go [] = ([], [], refl)
    go (l ∷ ls) = elim (Bool-cases (ends_line x l)) [
      | inl apart ↦ ([], l ∷ ls, rw apart)
      | inr joined ↦ (l, ls, rw joined)
    ]

-- Whether a byte ends a line depends on the first byte of the next line only.
cons_line_apart :
    (x y : ℕ) (l : Bytes) (text : Bytes)
    → ends_line x (y ∷ l) ≡ true
    → cons_line x (lines (y ∷ text)) ≡ (x ∷ []) ∷ lines (y ∷ text)
cons_line_apart x y l text h = let (m, ms, e) = lines-first y text in rw (e, h)

lines_single :
    (x y : ℕ) (l b : Bytes)
    → init (cons_line x ((y ∷ l) ∷ [])) ++ lines (last (cons_line x ((y ∷ l) ∷ [])) ++ b)
      ≡ cons_line x (lines (y ∷ l ++ b))
unfolding lines
lines_single x y l b = elim (Bool-cases (ends_line x (y ∷ l))) [
  | inl apart ↦ rw apart (sym (cons_line_apart x y l (l ++ b) apart))
  | inr joined ↦ rw joined refl
]

lines_several :
    (x : ℕ) (l m b : Bytes) (ls : List Bytes)
    → init (cons_line x (l ∷ m ∷ ls)) ++ lines (last (cons_line x (l ∷ m ∷ ls)) ++ b)
      ≡ cons_line x (l ∷ init (m ∷ ls) ++ lines (last (m ∷ ls) ++ b))
lines_several x l m b ls = elim (Bool-cases (ends_line x l)) [
  | inl apart ↦ rw apart
  | inr joined ↦ rw joined
]

-- Cutting a text anywhere, its lines up to the cut but the last, and the lines of the last one with
-- the rest, are the lines of the whole.
lines-append : (a b : Bytes) → init (lines a) ++ lines (last (lines a) ++ b) ≡ lines (a ++ b)
unfolding lines
lines-append [] b = refl
lines-append (x ∷ []) b = refl
lines-append (x ∷ y ∷ a) b =
    let (l, ls, e) = lines-first y a in step l ls (lines (y ∷ a)) e (lines-append (y ∷ a) b)
  where
    step :
        (l : Bytes) (ls all : List Bytes)
        → all ≡ (y ∷ l) ∷ ls
        → init all ++ lines (last all ++ b) ≡ lines (y ∷ a ++ b)
        → init (cons_line x all) ++ lines (last (cons_line x all) ++ b)
          ≡ cons_line x (lines (y ∷ a ++ b))
    step l [] all e h = rw e (lines_single x y l b ∙ ap (cons_line x) (rw e at h))
    step l (m ∷ ls) all e h = rw e (lines_several x (y ∷ l) m b ls ∙ ap (cons_line x) (rw e at h))

AreLines-init : (ls : List Bytes) → AreLines ls → AreLines (init ls)
AreLines-init [] h = tt
AreLines-init (l ∷ []) h = tt
AreLines-init (l ∷ m ∷ ls) (h, rest) = (h, AreLines-init (m ∷ ls) rest)

-- What is pending is a line, or nothing.
abbrev IsPending : Bytes → Type 0
IsPending l = (l ≡ []) ⊎ IsLine l

AreLines-last : (ls : List Bytes) → AreLines ls → IsPending (last ls)
AreLines-last [] h = inl refl
AreLines-last (l ∷ []) (h, rest) = inr h
AreLines-last (l ∷ m ∷ ls) (h, rest) = AreLines-last (m ∷ ls) rest

yield_lines_lem :
    (keepends : Bool) (ls : List Bytes) (rest : List Bytes)
    → AreLines ls
    → yield_lines keepends ls (rest, ok tt) ≡ (map (kept keepends) ls ++ rest, ok tt)
unfolding splitlines
yield_lines_lem keepends [] rest h = refl
yield_lines_lem keepends (l ∷ ls) rest (h, more) = rw (h, yield_lines_lem keepends ls rest more)

pending-lines :
    (keepends : Bool) (l : Bytes)
    → IsPending l
    → lines_of_chunks keepends l [] (ok tt) ≡ (splitlines keepends l, ok tt)
unfolding lines_of_chunks splitlines lines
pending-lines keepends [] h = refl
pending-lines keepends (x ∷ l) (inl h) = cc
pending-lines keepends (x ∷ l) (inr h) =
    yield_lines_lem keepends ((x ∷ l) ∷ []) [] (h, tt)
    ∙ ap (λ ls. (ls, ok tt))
        (append-nil (map (kept keepends) ((x ∷ l) ∷ [])) ∙ ap (map (kept keepends)) (sym h))

-- The lines of the chunks are those of the text that the chunks make up, behind what is pending.
pub lines_of_chunks-eq-splitlines :
    (keepends : Bool) (pending : Bytes) (chunks : List Bytes)
    → IsPending pending
    → lines_of_chunks keepends pending chunks (ok tt)
      ≡ (splitlines keepends (pending ++ flatten chunks), ok tt)
unfolding lines_of_chunks splitlines flatten
lines_of_chunks-eq-splitlines keepends pending [] h =
    rw append-nil (pending-lines keepends pending h)
lines_of_chunks-eq-splitlines keepends pending (chunk ∷ chunks) h =
    let text = pending ++ chunk in
    let split = lines-AreLines text in
    let later =
      lines_of_chunks-eq-splitlines keepends (last (lines text)) chunks
        (AreLines-last (lines text) split) in
    rw later (
      yield_lines_lem keepends (init (lines text)) _ (AreLines-init (lines text) split)
      ∙ ap (λ ls. (ls, ok tt))
          (sym (
              map-append (kept keepends) (init (lines text))
                (lines (last (lines text) ++ flatten chunks)))
            ∙ ap (map (kept keepends)) (
                lines-append text (flatten chunks)
                ∙ ap lines (append_assoc pending chunk (flatten chunks)))))
