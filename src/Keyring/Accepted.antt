-- ===== src/Keyring/Accepted.antt =====
-- What `KmsKeyring.on_decrypt` checks before it calls KMS, in terms of the code's own comparison of
-- the contexts.
use amazon_s3_encryption_cli.Prelude.{
  ◌≡◌, refl, ◌↔◌, ◌⊎◌, inl, inr, Bool, true, false, String, Dict, lookup, [], Option, none, some,
  eq_iff, arith, Bool-cases,
}
use amazon_s3_encryption_cli.Errors.{ok}
use amazon_s3_encryption_cli.Values.{Value, text, Member, equals_text, same_pairs}
use amazon_s3_encryption_cli.Values.Pairs.{eq_of_member_is, member_is-text}
use amazon_s3_encryption_cli.Suite.{AlgorithmSuite, content_cipher}
use amazon_s3_encryption_cli.Keyring.{
  kms_context_default_key, without_reserved, info_is, check_kms_context, check_wrapping,
}

-- What the Kms+Context mode asks of the stored context, of the requested one and of the suite.
pub record ContextAgrees (stored : Dict Member) (request : Dict String)
    (suite : Option AlgorithmSuite) : Type 0 where
  pub selected : AlgorithmSuite
  pub suite_selected : suite ≡ some selected
  pub not_reserved : lookup kms_context_default_key request ≡ none
  pub same : same_pairs (without_reserved stored) request ≡ true
  pub cipher : lookup kms_context_default_key stored ≡ some (Member.text (content_cipher selected))

agrees_of_check :
    (stored : Dict Member) (request : Dict String) (suite : Option AlgorithmSuite)
    → check_kms_context stored request suite ≡ ok tt
    → ContextAgrees stored request suite
unfolding check_kms_context
agrees_of_check stored request none h = absurd (ground arith)
agrees_of_check stored request (some s) h = record {
  selected = s;
  suite_selected = refl;
  not_reserved = ground arith;
  same = ground arith;
  cipher =
      eq_of_member_is (lookup kms_context_default_key stored) (content_cipher s) (ground arith);
}

check_of_agrees :
    (stored : Dict Member) (request : Dict String) (suite : Option AlgorithmSuite)
    → ContextAgrees stored request suite
    → check_kms_context stored request suite ≡ ok tt
unfolding check_kms_context
check_of_agrees stored request suite a =
    rw (a.suite_selected, a.not_reserved, a.same, a.cipher, member_is-text)

abbrev pub IsAccepted :
    Bool → Option Value → Dict Member → Dict String → Option AlgorithmSuite → Type 0
IsAccepted legacy info stored request suite =
    (info_is info "kms+context" ≡ true) × ContextAgrees stored request suite
    ⊎ (info_is info "kms" ≡ true) × (legacy ≡ true) × (request ≡ [])

not_both_modes :
    (info : Option Value) → info_is info "kms" ≡ true → info_is info "kms+context" ≡ false
unfolding equals_text
not_both_modes none h = refl
not_both_modes (some (text s)) h = rw ((eq_iff s "kms").0 h)
not_both_modes (some _) h = ground arith

check_wrapping-IsAccepted :
    (legacy : Bool) (info : Option Value) (stored : Dict Member) (request : Dict String)
    (suite : Option AlgorithmSuite)
    → check_wrapping legacy info stored request suite ≡ ok tt
    → IsAccepted legacy info stored request suite
unfolding check_wrapping
check_wrapping-IsAccepted legacy info stored request suite h =
    elim (Bool-cases (info_is info "kms+context")) [
      | inl e ↦ inl (e, agrees_of_check stored request suite (ground arith))
      | inr n ↦ elim (Bool-cases (info_is info "kms")) [
        | inl e ↦ inr (e, ground arith, ground arith)
        | inr n' ↦ absurd (ground arith)
      ]
    ]

check_of_IsAccepted :
    (legacy : Bool) (info : Option Value) (stored : Dict Member) (request : Dict String)
    (suite : Option AlgorithmSuite)
    → IsAccepted legacy info stored request suite
    → check_wrapping legacy info stored request suite ≡ ok tt
unfolding check_wrapping
check_of_IsAccepted legacy info stored request suite (inl (e, a)) =
    rw e (check_of_agrees stored request suite a)
check_of_IsAccepted legacy info stored request suite (inr (e, l, r)) =
    rw (not_both_modes info e, e, l, r)

pub check_wrapping_accepts :
    (legacy : Bool) (info : Option Value) (stored : Dict Member) (request : Dict String)
    (suite : Option AlgorithmSuite)
    → (check_wrapping legacy info stored request suite ≡ ok tt)
      ↔ IsAccepted legacy info stored request suite
check_wrapping_accepts legacy info stored request suite = (
  check_wrapping-IsAccepted legacy info stored request suite,
  check_of_IsAccepted legacy info stored request suite,
)
