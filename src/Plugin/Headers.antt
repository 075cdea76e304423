-- ===== src/Plugin/Headers.antt =====
-- The headers that the handler of PutObject writes.
use amazon_s3_encryption_cli.Prelude.{
  ◌≡◌, refl, sym, ap, ◌∙◌, ◌⊎◌, true, false, String, Dict, lookup, insert, lookup-insert, IsDict,
  [], ◌∷◌, Option, none, some, str_eq, eq_iff, Bool-cases, inl, inr,
}
use amazon_s3_encryption_cli.Values.{Value}
use amazon_s3_encryption_cli.Get.Resolve.{concat}
use amazon_s3_encryption_cli.Plugin.{s3_metadata_prefix, with_metadata_headers}

concat-injective : (p j k : String) → concat p j ≡ concat p k → j ≡ k
concat-injective String.[] j k h = h
concat-injective (String.◌∷◌ c p) j k h = concat-injective p j k (cc)

pub str_eq-concat : (p j k : String) → str_eq (concat p j) (concat p k) ≡ str_eq j k
str_eq-concat p j k = elim (Bool-cases (str_eq j k)) [
  | inl same ↦
      let e : j ≡ k = (eq_iff j k).0 same in
      (eq_iff (concat p j) (concat p k)).1 (ap (concat p) e) ∙ sym same
  | inr other ↦ go (Bool-cases (str_eq (concat p j) (concat p k))) other
]
  where
    go :
        (str_eq (concat p j) (concat p k) ≡ true) ⊎ (str_eq (concat p j) (concat p k) ≡ false)
        → str_eq j k ≡ false
        → str_eq (concat p j) (concat p k) ≡ str_eq j k
    go (inl same) other =
        let e : j ≡ k = concat-injective p j k ((eq_iff (concat p j) (concat p k)).0 same) in
        absurd (cc ((eq_iff j k).1 e, other))
    go (inr unlike) other = unlike ∙ sym other

abbrev pub or_header : Option Value → Option Value → Option Value
or_header none h = h
or_header (some v) h = some v

-- Under its prefixed name a key of the metadata is a header, and every other header is as it was.
pub lookup-with_metadata_headers :
    (k : String) (headers metadata : Dict Value)
    → IsDict metadata
    → lookup (concat s3_metadata_prefix k) (with_metadata_headers headers metadata)
      ≡ or_header (lookup k metadata) (lookup (concat s3_metadata_prefix k) headers)
unfolding with_metadata_headers lookup
lookup-with_metadata_headers k headers [] h = refl
lookup-with_metadata_headers k headers ((j, v) ∷ metadata) (new, h) =
    lookup-with_metadata_headers k (insert (concat s3_metadata_prefix j) v headers) metadata h
    ∙ ap (or_header (lookup k metadata))
        (lookup-insert (concat s3_metadata_prefix j) (concat s3_metadata_prefix k) v headers)
    ∙ rw (str_eq-concat s3_metadata_prefix j k) (elim (Bool-cases (str_eq j k)) [
      | inl same ↦
          let e : j ≡ k = (eq_iff j k).0 same in
          let absent : lookup k metadata ≡ none = rw e at new in rw (same, absent) refl
      | inr other ↦ rw other refl
    ])
