-- ===== src/Prelude/Dicts.antt =====
-- A Python dict keyed by strings, as an association list in insertion order.
use Prim.Native.String.{String}
use mathlib.Core.Path.{◌≡◌, refl, ◌∙◌}
use mathlib.Core.Bool.{Bool, false}
use mathlib.Core.Logic.{inl, inr}
use mathlib.Core.Option.{Option, none, some}
use mathlib.Core.List.{List, [], ◌∷◌}
use native.Mathlib.Omega.{arith}
use text.Mathlib.Text.{◌==◌ as str_eq}
use text.Mathlib.TextEquality.{eq_iff}
use amazon_s3_encryption_cli.Prelude.Tests.{if◌then◌else◌, is_some, Bool-cases}

abbrev pub Dict {ℓ} : Type ℓ → Type ℓ
Dict V = List (String × V)

module _ {ℓ} {V : Type ℓ} where
  -- `d.get(k)`
  unfoldable pub lookup : String → Dict V → Option V
  lookup k [] = none
  lookup k ((j, v) ∷ d) = if str_eq j k then some v else lookup k d

  -- `d[k] = v`
  unfoldable pub insert : String → V → Dict V → Dict V
  insert k v [] = (k, v) ∷ []
  insert k v ((j, w) ∷ d) = if str_eq j k then (j, v) ∷ d else (j, w) ∷ insert k v d

  -- `d.pop(k, None)`
  unfoldable pub erase : String → Dict V → Dict V
  erase k [] = []
  erase k ((j, v) ∷ d) = let rest = erase k d in if str_eq j k then rest else (j, v) ∷ rest

  -- `d.update(e)`
  unfoldable pub update : Dict V → Dict V → Dict V
  update d [] = d
  update d ((k, v) ∷ e) = update (insert k v d) e

  -- `k in d`
  abbrev pub contains : String → Dict V → Bool
  contains k d = is_some (lookup k d)

  pub lookup-insert :
      (k j : String) (v : V) (d : Dict V)
      → lookup j (insert k v d) ≡ (if str_eq k j then some v else lookup j d)
  unfolding lookup insert
  lookup-insert k j v [] = refl
  lookup-insert k j v ((i, w) ∷ d) =
      ground (arith, eq_iff k j, eq_iff i k, eq_iff i j, lookup-insert k j v d)

  pub lookup-erase :
      (k j : String) (d : Dict V) → lookup j (erase k d) ≡ (if str_eq k j then none else lookup j d)
  unfolding lookup erase
  lookup-erase k j [] = ground arith
  lookup-erase k j ((i, v) ∷ d) =
      ground (arith, lookup-erase k j d, eq_iff i k, eq_iff i j, eq_iff k j)

-- No key twice, as in every Python dict.
abbrev pub IsDict {ℓ} : {V : Type ℓ} → Dict V → Type ℓ
IsDict [] = Unit
IsDict ((k, v) ∷ d) = (lookup k d ≡ none) × IsDict d

module _ {ℓ} {V : Type ℓ} where
  pub erase_absent : (k : String) (d : Dict V) → lookup k d ≡ none → erase k d ≡ d
  unfolding lookup erase
  erase_absent k [] h = refl
  erase_absent k ((j, v) ∷ d) h = ground (arith, erase_absent k d)

  -- Taking out a key that was new gives the dict back.
  pub erase-insert_new :
      (k : String) (v : V) (d : Dict V) → lookup k d ≡ none → erase k (insert k v d) ≡ d
  unfolding lookup erase insert
  erase-insert_new k v [] h = ground (arith, eq_iff k k)
  erase-insert_new k v ((j, w) ∷ d) h = ground (arith, erase-insert_new k v d)

module _ {ℓ} {V : Type ℓ} where
  pub lookup-update_missing :
      (k : String) (d e : Dict V) → lookup k e ≡ none → lookup k (update d e) ≡ lookup k d
  unfolding lookup update
  lookup-update_missing k d [] h = refl
  lookup-update_missing k d ((j, v) ∷ e) h =
      let rest : lookup k e ≡ none = ground arith in
      let other : str_eq j k ≡ false = ground arith in
      lookup-update_missing k (insert j v d) e rest ∙ lookup-insert j k v d ∙ rw other refl

  -- A key that `d` lacks is in `d.update(e)` what it is in `e`.
  pub lookup-update_new :
      (k : String) (d e : Dict V)
      → IsDict e
      → lookup k d ≡ none
      → lookup k (update d e) ≡ lookup k e
  unfolding lookup update
  lookup-update_new k d [] h n = n
  lookup-update_new k d ((j, v) ∷ e) (new, h) n = elim (Bool-cases (str_eq j k)) [
    | inl s ↦
        let same : j ≡ k = (eq_iff j k).0 s in
        lookup-update_missing k (insert j v d) e (rw same at new)
        ∙ lookup-insert j k v d
        ∙ rw s refl
    | inr s ↦ lookup-update_new k (insert j v d) e h (lookup-insert j k v d ∙ rw s n) ∙ rw s refl
  ]

  pub erase-IsDict : (k : String) (d : Dict V) → IsDict d → IsDict (erase k d)
  unfolding lookup erase
  erase-IsDict k [] h = tt
  erase-IsDict k ((j, w) ∷ d) (new, h) = elim (Bool-cases (str_eq j k)) [
    | inl same ↦ rw same (erase-IsDict k d h)
    | inr other ↦ rw other (ground (arith, lookup-erase k j d), erase-IsDict k d h)
  ]

  pub insert-IsDict : (k : String) (v : V) (d : Dict V) → IsDict d → IsDict (insert k v d)
  unfolding lookup insert
  insert-IsDict k v [] h = (refl, tt)
  insert-IsDict k v ((j, w) ∷ d) (new, h) = elim (Bool-cases (str_eq j k)) [
    | inl same ↦ rw same (new, h)
    | inr other ↦ rw other (absent other, insert-IsDict k v d h)
  ]
    where
      absent : str_eq j k ≡ false → lookup j (insert k v d) ≡ none
      absent other =
          let unlike : str_eq k j ≡ false = ground (arith, eq_iff j k, eq_iff k j, other) in
          lookup-insert k j v d ∙ rw unlike new
