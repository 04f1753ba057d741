-- ===== src/Policy/Enrollment.antt =====
-- crates/fido-key-wrap/src/policy.rs: `Enrollment`, a request to add one route.
use fido_key_wrap.Common.{Bool, true, false, ◌≢◌, ◌≡◌, refl, Option, none, some, Bytes}
use fido_key_wrap.Error.{Result, ok, ok_or, >>=-eq-ok, ◌>>◌, invalid_label}
use mathlib.Core.Path.{subst}
use fido_key_wrap.Policy.{
  uses_passphrase, recovery_secret, fido_presence_and_local_secret, FidoPolicy, RecipientPolicy,
  passphrase, fido, managed_fido, fido_and_passphrase,
}
use fido_key_wrap.Policy.Parameters.{PassphraseParameters, desktop}
use fido_key_wrap.Policy.Label.{validate_label, IsLabel, IsLabel-of_validate}

pub record Enrollment : Type 0 where
  pub label : Bytes
  pub policy : RecipientPolicy
  pub parameters : Option PassphraseParameters

-- `Enrollment::build`
unfoldable pub build : Bytes → RecipientPolicy → Option PassphraseParameters → Result Enrollment
build label policy parameters = do
  ok_or invalid_label (validate_label label)
  ok (record { label = label; policy = policy; parameters = parameters })

unfoldable pub for_passphrase_with_parameters : Bytes → PassphraseParameters → Result Enrollment
unfolding build
for_passphrase_with_parameters label p = build label passphrase (some p)

unfoldable pub for_passphrase : Bytes → Result Enrollment
unfolding for_passphrase_with_parameters
for_passphrase label = for_passphrase_with_parameters label desktop

unfoldable pub for_fido : Bytes → FidoPolicy → Result Enrollment
unfolding build
for_fido label p = build label (fido p) none

unfoldable pub for_managed_fido : Bytes → FidoPolicy → Result Enrollment
unfolding build
for_managed_fido label p = build label (managed_fido p) none

unfoldable pub for_fido_and_passphrase_with_parameters :
    Bytes → FidoPolicy → PassphraseParameters → Result Enrollment
unfolding build
for_fido_and_passphrase_with_parameters label p q = build label (fido_and_passphrase p) (some q)

unfoldable pub for_fido_and_passphrase : Bytes → FidoPolicy → Result Enrollment
unfolding for_fido_and_passphrase_with_parameters
for_fido_and_passphrase label p = for_fido_and_passphrase_with_parameters label p desktop

-- The constructors that a caller may use.
pub data Request : Type 0 where
  with_passphrase : Bytes → PassphraseParameters → Request
  with_passphrase_defaults : Bytes → Request
  with_fido with_managed_fido with_fido_and_passphrase_defaults : Bytes → FidoPolicy → Request
  with_fido_and_passphrase : Bytes → FidoPolicy → PassphraseParameters → Request

abbrev pub requested : Request → Result Enrollment
requested (with_passphrase label p) = for_passphrase_with_parameters label p
requested (with_passphrase_defaults label) = for_passphrase label
requested (with_fido label f) = for_fido label f
requested (with_managed_fido label f) = for_managed_fido label f
requested (with_fido_and_passphrase_defaults label f) = for_fido_and_passphrase label f
requested (with_fido_and_passphrase label f p) = for_fido_and_passphrase_with_parameters label f p

abbrev is_some : Option PassphraseParameters → Bool
is_some none = false
is_some (some q) = true

abbrev pub has_parameters : Enrollment → Bool
has_parameters en = is_some en.parameters

ok_or-ok : (m : Option (Unit {0})) → ok_or invalid_label m ≡ ok tt → m ≡ some tt
ok_or-ok none h = cc
ok_or-ok (some tt) h = refl

-- The parameters are there exactly when the policy uses a passphrase, the label is valid, and the
-- policy is none of the two that have operations of their own.
pub record IsEnrollment (en : Enrollment) : Type 0 where
  pub label : IsLabel en.label
  pub parameters : has_parameters en ≡ uses_passphrase en.policy
  pub not_secret : en.policy ≢ recovery_secret
  pub not_local_secret : en.policy ≢ fido_presence_and_local_secret

build-IsEnrollment :
    (label : Bytes) (policy : RecipientPolicy) (q : Option PassphraseParameters) (en : Enrollment)
    → is_some q ≡ uses_passphrase policy
    → policy ≢ recovery_secret
    → policy ≢ fido_presence_and_local_secret
    → build label policy q ≡ ok en
    → IsEnrollment en
unfolding build
build-IsEnrollment label policy q en h k l e =
    let (u, valid, made) = >>=-eq-ok (ok_or invalid_label (validate_label label)) _ e in
    subst IsEnrollment (cc (made)) (record {
      label = IsLabel-of_validate label (ok_or-ok (validate_label label) valid);
      parameters = h;
      not_secret = k;
      not_local_secret = l;
    })

-- Every request that a caller can build has a valid label, has passphrase parameters exactly when its
-- policy uses a passphrase, and never has the policy of a recovery secret or of a local secret.
pub requested-IsEnrollment : (q : Request) (en : Enrollment) → requested q ≡ ok en → IsEnrollment en
unfolding for_passphrase_with_parameters for_passphrase for_fido for_managed_fido
    for_fido_and_passphrase for_fido_and_passphrase_with_parameters uses_passphrase
requested-IsEnrollment (with_passphrase label p) en h =
    build-IsEnrollment label _ _ en refl (λ e. cc) (λ e. cc) h
requested-IsEnrollment (with_passphrase_defaults label) en h =
    build-IsEnrollment label _ _ en refl (λ e. cc) (λ e. cc) h
requested-IsEnrollment (with_fido label f) en h =
    build-IsEnrollment label _ _ en refl (λ e. cc) (λ e. cc) h
requested-IsEnrollment (with_managed_fido label f) en h =
    build-IsEnrollment label _ _ en refl (λ e. cc) (λ e. cc) h
requested-IsEnrollment (with_fido_and_passphrase_defaults label f) en h =
    build-IsEnrollment label _ _ en refl (λ e. cc) (λ e. cc) h
requested-IsEnrollment (with_fido_and_passphrase label f p) en h =
    build-IsEnrollment label _ _ en refl (λ e. cc) (λ e. cc) h
