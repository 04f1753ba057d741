-- ===== src/Protector/Fresh.antt =====
-- crates/fido-key-wrap/src/protector.rs: random values that an envelope does not hold yet, and the
-- passphrases that a user enters.
use fido_key_wrap.Common.{ℕ, zero, suc, Bool, true, false, none, some, Bytes, any, eq_bytes}
use fido_key_wrap.Error.{ok, err, random_unavailable, passphrase_confirmation_mismatch}
use fido_key_wrap.Interaction.{Operation, PassphrasePurpose, new, confirm, confirmation_matches}
use fido_key_wrap.Envelope.{RecipientRecord, KeyEnvelope, passphrase_salt}
use fido_key_wrap.Envelope.Find.{find}
use fido_key_wrap.Effect.{Effect, pure, raise, ◌>>=◌}
use fido_key_wrap.Protector.Env.{Env, from_answer}

abbrev pub random_attempts : ℕ
random_attempts = 32

-- `inner.kdf.salt == salt` for the recipients that have one
abbrev pub has_salt : Bytes → RecipientRecord → Bool
has_salt salt r = elim (passphrase_salt r) [ none ↦ false | some t ↦ eq_bytes t salt ]

module _ {World Session : Type 0} (env : Env World Session) where
  -- The loops over `0..RANDOM_ATTEMPTS`, with the rounds that are left.
  unfoldable pub unique_recipient_id : ℕ → KeyEnvelope → Effect World Bytes
  unique_recipient_id zero e = raise random_unavailable
  unique_recipient_id (suc n) e = do
    id ← env.random_array 32
    elim (find e id) [ err _ ↦ pure id | ok _ ↦ unique_recipient_id n e ]

  unfoldable pub unique_salt : ℕ → KeyEnvelope → Effect World Bytes
  unique_salt zero e = raise random_unavailable
  unique_salt (suc n) e = do
    salt ← env.random_array 16
    elim (any (has_salt salt) e.recipients) [ false ↦ pure salt | true ↦ unique_salt n e ]

  -- rounds left, size, old value
  unfoldable pub fresh_array : ℕ → ℕ → Bytes → Effect World Bytes
  fresh_array zero n old = raise random_unavailable
  fresh_array (suc k) n old = do
    value ← env.random_array n
    elim (eq_bytes value old) [ false ↦ pure value | true ↦ fresh_array k n old ]

  unfoldable pub request_passphrase : Operation → Bytes → PassphrasePurpose → Effect World Bytes
  request_passphrase operation label purpose world =
      let (answer, world') = env.ask_passphrase operation label purpose world in
      (from_answer answer, world')

  unfoldable pub request_new_passphrase : Operation → Bytes → Effect World Bytes
  request_new_passphrase operation label = do
    pass ← request_passphrase operation label new
    confirmation ← request_passphrase operation label confirm
    elim (confirmation_matches pass confirmation) [
      | true ↦ pure pass
      | false ↦ raise passphrase_confirmation_mismatch
    ]
