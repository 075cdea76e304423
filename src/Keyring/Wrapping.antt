-- ===== src/Keyring/Wrapping.antt =====
-- Which wrapping algorithms and encryption contexts `KmsKeyring.on_decrypt` accepts.
use amazon_s3_encryption_cli.Prelude.{
  ◌≡◌, refl, ◌↔◌, ◌⊎◌, inl, inr, Bool, true, false, String, Dict, lookup, [], Option, none, some,
  eq_iff, eq_refl, str_eq, sym, ◌∙◌, ◌≢◌, IsDict, erase, erase-IsDict, lookup-erase, arith,
  Bool-cases,
}
use amazon_s3_encryption_cli.Errors.{ok}
use amazon_s3_encryption_cli.Values.{Value, text, Member, equals_text}
use amazon_s3_encryption_cli.Values.Pairs.{same_pairs-lookup, same_pairs_of_lookup}
use mathlib.Core.Option
use amazon_s3_encryption_cli.Suite.{AlgorithmSuite, content_cipher}
use amazon_s3_encryption_cli.Keyring.{
  kms_context_default_key, kms_v1_default_key, without_reserved, info_is, check_wrapping,
}
use amazon_s3_encryption_cli.Keyring.Accepted.{ContextAgrees, IsAccepted, check_wrapping_accepts}

-- What a caller may read off the contexts: the request has neither of the reserved keys, at every
-- other key the stored context holds the text that was requested and nothing else, and the cipher
-- in the stored context is that of the suite.
pub record Matches (stored : Dict Member) (request : Dict String) (suite : Option AlgorithmSuite)
    : Type 0 where
  pub selected : AlgorithmSuite
  pub suite_selected : suite ≡ some selected
  pub no_cek_alg : lookup "aws:x-amz-cek-alg" request ≡ none
  pub no_cmk_id : lookup "kms_cmk_id" request ≡ none
  pub others :
      (k : String)
      → k ≢ "aws:x-amz-cek-alg"
      → k ≢ "kms_cmk_id"
      → lookup k stored ≡ Option.map Member.text (lookup k request)
  pub cipher : lookup "aws:x-amz-cek-alg" stored ≡ some (Member.text (content_cipher selected))

differs : (a b : String) → a ≢ b → str_eq b a ≡ false
differs a b n = elim (Bool-cases (str_eq b a)) [
  | inl same ↦ absurd (n (sym ((eq_iff b a).0 same)))
  | inr other ↦ other
]

differs_of : (a b : String) → str_eq a b ≡ false → b ≢ a
differs_of a b other same = cc (other, (eq_iff a b).1 (sym same))

none_of_map : (o : Option String) → Option.map Member.text o ≡ none → o ≡ none
none_of_map none h = refl
none_of_map (some s) h = cc

ContextAgrees-Matches :
    (stored : Dict Member) (request : Dict String) (suite : Option AlgorithmSuite)
    → ContextAgrees stored request suite
    → Matches stored request suite
unfolding without_reserved
ContextAgrees-Matches stored request suite a =
    let at_key : (k : String)
        → lookup k (without_reserved stored) ≡ Option.map Member.text (lookup k request) =
      (λ k. same_pairs-lookup (without_reserved stored) request k a.same) in
    record {
      selected = a.selected;
      suite_selected = a.suite_selected;
      no_cek_alg = a.not_reserved;
      no_cmk_id =
          none_of_map (lookup "kms_cmk_id" request)
            (sym (at_key "kms_cmk_id") ∙ rw (lookup-erase, lookup-erase) refl);
      others = λ k not_alg not_id.
          sym (
            rw
              (
                lookup-erase,
                lookup-erase,
                differs k "aws:x-amz-cek-alg" not_alg,
                differs k "kms_cmk_id" not_id,
              )
              refl)
          ∙ at_key k;
      cipher = a.cipher;
    }

Matches-ContextAgrees :
    (stored : Dict Member) (request : Dict String) (suite : Option AlgorithmSuite)
    → IsDict stored
    → IsDict request
    → Matches stored request suite
    → ContextAgrees stored request suite
unfolding without_reserved
Matches-ContextAgrees stored request suite d e m = record {
  selected = m.selected;
  suite_selected = m.suite_selected;
  not_reserved = m.no_cek_alg;
  same =
      same_pairs_of_lookup (without_reserved stored) request
        (erase-IsDict kms_context_default_key (erase kms_v1_default_key stored)
          (erase-IsDict kms_v1_default_key stored d))
        e at_key;
  cipher = m.cipher;
}
  where
    at_key :
        (k : String)
        → lookup k (erase "aws:x-amz-cek-alg" (erase "kms_cmk_id" stored))
          ≡ Option.map Member.text (lookup k request)
    at_key k = elim (Bool-cases (str_eq "aws:x-amz-cek-alg" k)) [
      | inl alg ↦
          let same = (eq_iff "aws:x-amz-cek-alg" k).0 alg in
          rw (lookup-erase, alg, sym same, m.no_cek_alg) refl
      | inr not_alg ↦ elim (Bool-cases (str_eq "kms_cmk_id" k)) [
        | inl id ↦
            let same = (eq_iff "kms_cmk_id" k).0 id in
            rw (lookup-erase, lookup-erase, not_alg, id, sym same, m.no_cmk_id) refl
        | inr not_id ↦
            rw (lookup-erase, lookup-erase, not_alg, not_id)
              (m.others k (differs_of "aws:x-amz-cek-alg" k not_alg)
                (differs_of "kms_cmk_id" k not_id))
      ]
    ]

is_of_info : (info : Option Value) (s : String) → info_is info s ≡ true → info ≡ some (text s)
unfolding equals_text
is_of_info none s h = absurd (ground arith)
is_of_info (some (text t)) s h = rw ((eq_iff t s).0 h) refl
is_of_info (some _) s h = absurd (ground arith)

info_is-text : (s : String) → info_is (some (text s)) s ≡ true
unfolding equals_text
info_is-text s = eq_refl s

-- The two modes.
abbrev pub IsAllowed :
    Bool → Option Value → Dict Member → Dict String → Option AlgorithmSuite → Type 0
IsAllowed legacy info stored request suite =
    (info ≡ some (text "kms+context")) × Matches stored request suite
    ⊎ (info ≡ some (text "kms")) × (legacy ≡ true) × (request ≡ [])

-- For contexts with no key twice, the checks before the call of KMS pass exactly in two cases. The
-- wrapping algorithm is "kms+context", a suite is selected whose content cipher the stored context
-- holds, the requested context has neither of the reserved keys, and at every other key the stored
-- context has the text that the requested one has, and nothing where it has nothing. Or the
-- wrapping algorithm is "kms", legacy wrapping algorithms are enabled, and no context is requested.
pub check_wrapping_iff :
    (legacy : Bool) (info : Option Value) (stored : Dict Member) (request : Dict String)
    (suite : Option AlgorithmSuite)
    → IsDict stored
    → IsDict request
    → (check_wrapping legacy info stored request suite ≡ ok tt)
      ↔ IsAllowed legacy info stored request suite
check_wrapping_iff legacy info stored request suite d e = (
  λ passes. allowed ((check_wrapping_accepts legacy info stored request suite).0 passes),
  λ h. (check_wrapping_accepts legacy info stored request suite).1 (accepted h),
)
  where
    allowed :
        IsAccepted legacy info stored request suite → IsAllowed legacy info stored request suite
    allowed (inl (mode, a)) =
        inl (is_of_info info "kms+context" mode, ContextAgrees-Matches stored request suite a)
    allowed (inr (mode, l, r)) = inr (is_of_info info "kms" mode, l, r)

    accepted :
        IsAllowed legacy info stored request suite → IsAccepted legacy info stored request suite
    accepted (inl (mode, m)) =
        inl (rw mode (info_is-text "kms+context"), Matches-ContextAgrees stored request suite d e m)
    accepted (inr (mode, l, r)) = inr (rw mode (info_is-text "kms"), l, r)
