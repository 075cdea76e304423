-- ===== src/Stream/Lines.antt =====
-- `readinto`, `readlines`, `iter_lines` and `close` of stream.py, with `bytes.splitlines`.
pub mod Split
pub mod Plaintext
use amazon_s3_encryption_cli.Prelude.{
  Bool, true, false, ◌&&◌, ◌||◌, ℕ, Bytes, List, [], ◌∷◌, ◌++◌, Option, none, some, length, take,
  drop, ◌==◌, is_empty, if◌then◌else◌,
}
use mathlib.Core.List.{map}
use amazon_s3_encryption_cli.Errors.{Result, ok, err, other_error, ◌>>=◌}
use amazon_s3_encryption_cli.External.{GcmDecryption, CbcDecryption, ByteSource}
use amazon_s3_encryption_cli.Stream.{DecryptingStream, Stream, read, iter_chunks}

abbrev pub lf : ℕ
lf = 10

abbrev pub cr : ℕ
cr = 13

abbrev pub starts_with_lf : Bytes → Bool
starts_with_lf [] = false
starts_with_lf (x ∷ xs) = x == lf

-- The byte `x` before a line that starts with `l` ends a line of its own.
abbrev pub ends_line : ℕ → Bytes → Bool
ends_line x l = (x == lf) || ((x == cr) && not_lf (starts_with_lf l))
  where
    not_lf : Bool → Bool
    not_lf true = false
    not_lf false = true

-- A byte before the lines of a text.
abbrev pub cons_line : ℕ → List Bytes → List Bytes
cons_line x [] = (x ∷ []) ∷ []
cons_line x (l ∷ ls) = if ends_line x l then (x ∷ []) ∷ l ∷ ls else (x ∷ l) ∷ ls

-- `text.splitlines(True)`: lines end with a line feed, a carriage return, or both in this order.
unfoldable pub lines : Bytes → List Bytes
lines [] = []
lines (x ∷ text) = cons_line x (lines text)

-- A line without its end.
abbrev pub chomp : Bytes → Bytes
chomp [] = []
chomp (x ∷ l) = if (x == lf) || (x == cr) then [] else x ∷ chomp l

abbrev pub kept : Bool → Bytes → Bytes
kept true l = l
kept false l = chomp l

-- `text.splitlines(keepends)`
unfoldable pub splitlines : Bool → Bytes → List Bytes
splitlines keepends text = map (kept keepends) (lines text)

-- `l[0]`
abbrev pub first {ℓ} : {A : Type ℓ} → List A → Result A
first [] = err other_error
first (x ∷ xs) = ok x

-- `l[:-1]` and, of a list that is not empty, `l[-1]`
abbrev pub init : List Bytes → List Bytes
init [] = []
init (l ∷ []) = []
init (l ∷ m ∷ ls) = l ∷ init (m ∷ ls)

abbrev pub last : List Bytes → Bytes
last [] = []
last (l ∷ []) = l
last (l ∷ m ∷ ls) = last (m ∷ ls)

-- Lines that are yielded, and how the iteration ends.
abbrev pub Yields : Type 0
Yields = List Bytes × Result (Unit {0})

abbrev pub yield_line : Result Bytes → Yields → Yields
yield_line (err e) rest = ([], err e)
yield_line (ok l) (ls, r) = (l ∷ ls, r)

-- `for line in ls: yield line.splitlines(keepends)[0]`, and then the rest
abbrev pub yield_lines : Bool → List Bytes → Yields → Yields
yield_lines keepends [] rest = rest
yield_lines keepends (l ∷ ls) rest =
    yield_line (first (splitlines keepends l)) (yield_lines keepends ls rest)

-- The loop of `iter_lines` over chunks, after which the iteration over chunks ends with `r`.
unfoldable pub lines_of_chunks : Bool → Bytes → List Bytes → Result (Unit {0}) → Yields
lines_of_chunks keepends pending [] (err e) = ([], err e)
lines_of_chunks keepends pending [] (ok _) =
    if is_empty pending then ([], ok tt) else yield_lines keepends (pending ∷ []) ([], ok tt)
lines_of_chunks keepends pending (chunk ∷ chunks) r =
    yield_lines keepends (init (lines (pending ++ chunk)))
      (lines_of_chunks keepends (last (lines (pending ++ chunk))) chunks r)

module _ (src : ByteSource) (g : GcmDecryption) (b : CbcDecryption) where
  abbrev pub iterated :
      Bool
      → Option (List Bytes × Result (Unit {0}) × Stream src g b)
      → Option (List Bytes × Result (Unit {0}) × Stream src g b)
  iterated keepends none = none
  iterated keepends (some (chunks, r, t)) =
      let (ls, r') = lines_of_chunks keepends [] chunks r in some (ls, r', t)

  -- `none` means that the fuel of `iter_chunks` ran out.
  unfoldable pub iter_lines :
      ℕ → ℕ → Bool → Stream src g b → Option (List Bytes × Result (Unit {0}) × Stream src g b)
  iter_lines fuel chunk_size keepends s = iterated keepends (iter_chunks src g b fuel chunk_size s)

  -- `self.read().splitlines(True)`
  unfoldable pub readlines : Stream src g b → Option (Result (List Bytes) × Stream src g b)
  readlines s = elim (read src g b none s) [
    | none ↦ none
    | some (r, t) ↦ some ((r >>= λ text. ok (splitlines true text)), t)
  ]

  -- `b[:n] = text`, of a `bytearray`: a text that is longer than `b` makes it longer.
  abbrev pub written_into : Bytes → Bytes → Bytes
  written_into buffer text = text ++ drop (length text) buffer

  -- The number of bytes, and the buffer as it is left.
  abbrev pub after_readinto :
      Bytes → Option (Result Bytes × Stream src g b) → Option (Result ℕ × Bytes × Stream src g b)
  after_readinto buffer none = none
  after_readinto buffer (some (err e, t)) = some (err e, buffer, t)
  after_readinto buffer (some (ok text, t)) = some (ok (length text), written_into buffer text, t)

  unfoldable pub readinto : Bytes → Stream src g b → Option (Result ℕ × Bytes × Stream src g b)
  readinto buffer s = after_readinto buffer (read src g b (some (length buffer)) s)

  abbrev pub after_close :
      Stream src g b → Result (Unit {0}) × src.Body → Result (Unit {0}) × Stream src g b
  after_close s (r, body) = (r, record s { body = body })

  -- `close` and `__exit__`, with the body's own `close`, if it has one. The stream does not count as
  -- finalized by this.
  unfoldable pub close :
      Option (src.Body → Result (Unit {0}) × src.Body)
      → Stream src g b
      → Result (Unit {0}) × Stream src g b
  close none s = (ok tt, s)
  close (some close_body) s = after_close s (close_body s.body)
