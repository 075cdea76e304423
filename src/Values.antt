-- ===== src/Values.antt =====
-- The Python values that object metadata and parsed JSON may hold. Of a number or a list the code
-- reads the truth value only; of a member of a JSON object whether it is a text, and which.
pub mod Pairs
use amazon_s3_encryption_cli.Prelude.{
  ℕ, ◌≡◌, refl, Bool, true, false, not, ◌&&◌, String, Dict, lookup, List, [], ◌∷◌, is_empty, Option,
  none, some, str_eq, eq_iff, arith, if◌then◌else◌,
}

-- `other` keeps the JSON text of a member that is no string.
pub data Member : Type 0 where
  text : String → Member
  other : String → Member

pub data Value : Type 0 where
  null : Value
  text : String → Value
  object : Dict Member → Value
  number : Bool → Value
  array : Bool → Value

-- `bool(v)`
unfoldable pub truthy : Value → Bool
truthy null = false
truthy (text s) = not (str_eq s "")
truthy (object d) = not (is_empty d)
truthy (number b) = b
truthy (array b) = b

-- `v == s` for a string `s`
unfoldable pub equals_text : Value → String → Bool
equals_text (text t) s = str_eq t s
equals_text _ s = false

-- A dictionary of strings as a value.
unfoldable pub members : Dict String → Dict Member
members [] = []
members ((k, s) ∷ d) = (k, Member.text s) ∷ members d

-- `m == s` for a member `m`, which may be missing, and a string `s`
unfoldable pub member_is : Option Member → String → Bool
member_is (some (Member.text t)) s = str_eq t s
member_is _ s = false

unfoldable pub includes_all : Dict Member → Dict String → Bool
includes_all stored [] = true
includes_all stored ((k, s) ∷ d) = member_is (lookup k stored) s && includes_all stored d

abbrev pub requested : Member → Option String → Bool
requested m none = false
requested m (some s) = member_is (some m) s

unfoldable pub included_in : Dict Member → Dict String → Bool
included_in [] request = true
included_in ((k, m) ∷ d) request = requested m (lookup k request) && included_in d request

-- `stored == request`: two dicts are equal if they have the same pairs, in any order.
unfoldable pub same_pairs : Dict Member → Dict String → Bool
unfolding includes_all included_in
same_pairs stored request = includes_all stored request && included_in stored request
