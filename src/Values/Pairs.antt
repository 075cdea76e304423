-- ===== src/Values/Pairs.antt =====
-- Equality of dictionaries, and dictionaries of strings as JSON objects.
use amazon_s3_encryption_cli.Prelude.{
  ◌≡◌, refl, true, String, Dict, lookup, insert, IsDict, [], ◌∷◌, Option, none, some, eq_iff,
  eq_refl, arith, Option-cases, sym, ◌∙◌, inl, inr,
}
use mathlib.Core.Option
use amazon_s3_encryption_cli.Values.{
  Member, members, member_is, includes_all, included_in, same_pairs, requested,
}

pub lookup-members :
    (k : String) (d : Dict String) → lookup k (members d) ≡ Option.map Member.text (lookup k d)
unfolding lookup members
lookup-members k [] = refl
lookup-members k ((j, s) ∷ d) = ground (arith, lookup-members k d)

pub members-insert :
    (k s : String) (d : Dict String) → members (insert k s d) ≡ insert k (Member.text s) (members d)
unfolding insert members
members-insert k s [] = refl
members-insert k s ((j, t) ∷ d) = ground (arith, members-insert k s d)

pub eq_of_member_is :
    (m : Option Member) (s : String) → member_is m s ≡ true → m ≡ some (Member.text s)
unfolding member_is
eq_of_member_is none s h = ground arith
eq_of_member_is (some (Member.text t)) s h = ground (arith, eq_iff t s)
eq_of_member_is (some (Member.other t)) s h = ground arith

pub member_is-text : (s : String) → member_is (some (Member.text s)) s ≡ true
unfolding member_is
member_is-text s = eq_refl s

includes_all-lookup :
    (stored : Dict Member) (d : Dict String) (k s : String)
    → includes_all stored d ≡ true
    → lookup k d ≡ some s
    → lookup k stored ≡ some (Member.text s)
unfolding includes_all lookup
includes_all-lookup stored [] k s h e = ground arith
includes_all-lookup stored ((j, t) ∷ d) k s h e =
    ground
      (arith, eq_iff j k, eq_of_member_is (lookup j stored) t, includes_all-lookup stored d k s)

eq_of_requested :
    (m : Member) (o : Option String) → requested m o ≡ true → Option.map Member.text o ≡ some m
eq_of_requested m none h = ground arith
eq_of_requested m (some s) h = sym (eq_of_member_is (some m) s h)

included_in-lookup :
    (stored : Dict Member) (request : Dict String) (k : String) (m : Member)
    → included_in stored request ≡ true
    → lookup k stored ≡ some m
    → Option.map Member.text (lookup k request) ≡ some m
unfolding included_in lookup
included_in-lookup [] request k m h e = ground arith
included_in-lookup ((j, n) ∷ d) request k m h e =
    ground
      (arith, eq_iff j k, eq_of_requested n (lookup j request), included_in-lookup d request k m)

-- Equal dictionaries give the same value at every key.
pub same_pairs-lookup :
    (stored : Dict Member) (request : Dict String) (k : String)
    → same_pairs stored request ≡ true
    → lookup k stored ≡ Option.map Member.text (lookup k request)
unfolding same_pairs
same_pairs-lookup stored request k h = elim (Option-cases (lookup k stored)) [
  | inl e ↦ elim (Option-cases (lookup k request)) [
    | inl e' ↦ rw (e, e')
    | inr (s, e') ↦ rw e' (includes_all-lookup stored request k s (ground arith) e')
  ]
  | inr (m, e) ↦ rw e (sym (included_in-lookup stored request k m (ground arith) e))
]

includes_all_of_lookup :
    (stored : Dict Member) (d : Dict String)
    → IsDict d
    → ((k s : String) → lookup k d ≡ some s → lookup k stored ≡ some (Member.text s))
    → includes_all stored d ≡ true
unfolding includes_all lookup
includes_all_of_lookup stored [] i h = refl
includes_all_of_lookup stored ((j, t) ∷ d) i h =
    let rest =
      includes_all_of_lookup stored d i.1 λ k s e. h k s (ground (arith, eq_iff j k, i.0)) in
    let head = h j t (rw eq_refl) in rw (head, member_is-text, rest)

included_in_of_lookup :
    (d request : Dict String)
    → IsDict d
    → ((k s : String) → lookup k d ≡ some s → lookup k request ≡ some s)
    → included_in (members d) request ≡ true
unfolding included_in members lookup
included_in_of_lookup [] request i h = refl
included_in_of_lookup ((j, t) ∷ d) request i h =
    let rest =
      included_in_of_lookup d request i.1 λ k s e. h k s (ground (arith, eq_iff j k, i.0)) in
    let head = h j t (rw eq_refl) in rw (head, member_is-text, rest)

requested_of_eq :
    (m : Member) (o : Option String) → Option.map Member.text o ≡ some m → requested m o ≡ true
requested_of_eq m none h = ground arith
requested_of_eq m (some s) h = let same : m ≡ Member.text s = cc in rw (same, member_is-text)

included_in_of_lookups :
    (d : Dict Member) (request : Dict String)
    → IsDict d
    → ((k : String) (m : Member)
        → lookup k d ≡ some m
        → Option.map Member.text (lookup k request) ≡ some m)
    → included_in d request ≡ true
unfolding included_in lookup
included_in_of_lookups [] request i h = refl
included_in_of_lookups ((j, n) ∷ d) request i h =
    let rest =
      included_in_of_lookups d request i.1 λ k m e. h k m (ground (arith, eq_iff j k, i.0)) in
    let head = requested_of_eq n (lookup j request) (h j n (rw eq_refl)) in rw (head, rest)

-- Dictionaries that give the same value at every key are equal.
pub same_pairs_of_lookup :
    (stored : Dict Member) (request : Dict String)
    → IsDict stored
    → IsDict request
    → ((k : String) → lookup k stored ≡ Option.map Member.text (lookup k request))
    → same_pairs stored request ≡ true
unfolding same_pairs
same_pairs_of_lookup stored request i j h = rw (
  includes_all_of_lookup stored request j (λ k s e. rw (h k, e)),
  included_in_of_lookups stored request i (λ k m e. sym (h k) ∙ e),
)

-- A dictionary of strings equals itself as a JSON object.
pub same_pairs-members : (d : Dict String) → IsDict d → same_pairs (members d) d ≡ true
unfolding same_pairs
same_pairs-members d i = rw (
  includes_all_of_lookup (members d) d i (λ k s e. rw (lookup-members, e)),
  included_in_of_lookup d d i (λ k s e. e),
)
