-- ===== src/Protector/Admission.antt =====
-- What `unlock` of crates/fido-key-wrap/src/protector.rs decides before it turns to the user or to a
-- security key.
use fido_key_wrap.Common.{◌≤◌, ◌<◌, ◌*◌, ◌≡◌, ◌≢◌, ◌⊎◌, Option, none, some, Bytes}
use fido_key_wrap.Error.{
  Error, Result, err, application_mismatch, passphrase_limit_exceeded, recipient_not_found,
}
use fido_key_wrap.Policy.Parameters.{PassphraseParameters, PassphraseLimits}
use fido_key_wrap.Envelope.{RecipientRecord, KeyEnvelope, passphrase_parameters}
use fido_key_wrap.Envelope.Wire.{Wire}
use fido_key_wrap.Envelope.Find.Laws.{lookup}
use fido_key_wrap.Crypto.Suite.{Suite}
use fido_key_wrap.Effect
use fido_key_wrap.Effect.{Effect, lift}
use fido_key_wrap.Protector.{KeyProtector}
use fido_key_wrap.Protector.Env.{Env}
use fido_key_wrap.Protector.Guards.{accept_root}
use fido_key_wrap.Protector.Unlock.{unlock, unlock_record}

-- The work is above a ceiling, or below both.
abbrev pub IsExcessive : PassphraseLimits → PassphraseParameters → Type 0
IsExcessive l q =
    (l.limit_memory_kib < q.memory_kib) ⊎ (l.limit_work_kib_passes < q.memory_kib * q.passes)

abbrev pub IsModest : PassphraseLimits → PassphraseParameters → Type 0
IsModest l q =
    (q.memory_kib ≤ l.limit_memory_kib) × (q.memory_kib * q.passes ≤ l.limit_work_kib_passes)

module _ (p : KeyProtector) (e : KeyEnvelope) (recipient : Bytes) where
  -- Why an unlock is refused before anything is asked, and with which error.
  pub data Refused : Error → Type 0 where
    other_application : e.application_id ≢ p.application_id → Refused application_mismatch
    missing :
        e.application_id ≡ p.application_id
        → lookup recipient e.recipients ≡ none
        → Refused recipient_not_found
    excessive :
        (r : RecipientRecord) (q : PassphraseParameters)
        → e.application_id ≡ p.application_id
        → lookup recipient e.recipients ≡ some r
        → passphrase_parameters r ≡ some q
        → IsExcessive p.passphrase_limits q
        → Refused passphrase_limit_exceeded

  -- When it is not.
  pub record Admitted (r : RecipientRecord) : Type 0 where
    pub application : e.application_id ≡ p.application_id
    pub found : lookup recipient e.recipients ≡ some r
    pub work :
        (q : PassphraseParameters)
        → passphrase_parameters r ≡ some q
        → IsModest p.passphrase_limits q

module _ (w : Wire) (s : Suite) {World Session : Type 0} (env : Env World Session)
    (p : KeyProtector) (e : KeyEnvelope) (recipient : Bytes) (world : World) where
  -- What `unlock` does once the recipient is admitted.
  abbrev pub proceeds : RecipientRecord → Result Bytes × World
  proceeds r =
      Effect.◌>>=◌ (unlock_record w s env p e r) (λ root. lift (accept_root w s e root)) world

  abbrev Decided : Type 0
  Decided =
      ((x : Error) × Refused p e recipient x
        × (unlock w s env p e recipient world ≡ (err x, world)))
      ⊎ ((r : RecipientRecord) × Admitted p e recipient r
          × (unlock w s env p e recipient world ≡ proceeds r))
