-- ===== src/Tests/Operations.antt =====
-- The properties of the operations of crates/fido-key-wrap/src/protector.rs at a small envelope.
use mathlib.Core.Path.{subst}
use fido_key_wrap.Effect.Frame.{discard}
use fido_key_wrap.Common.{ℕ, ◌≡◌, refl, ap, ◌++◌, some, cmp_bytes, replicate, Bytes, arith, IsArray}
use fido_key_wrap.Error.{Error, ok, err}
use fido_key_wrap.Envelope.{RecipientRecord, recovery_secret}
use fido_key_wrap.Envelope.Encode.{encode}
use fido_key_wrap.Protector.Staging.{IsVerified, stage_existing_record-IsVerified}
use fido_key_wrap.Envelope.Find.Laws.{lookup}
use fido_key_wrap.Crypto.Mac.{compute_envelope_mac}
use fido_key_wrap.Crypto.Mac.Total.{compute_envelope_mac-total}
use fido_key_wrap.Protector.Recipients.{add_recipient, add_recovery_secret, remove_recipient}
use fido_key_wrap.Protector.Managed.{verify_managed_recipient, retire_managed_recipient}
use fido_key_wrap.Protector.Changes.{
  add_secret, drop_recipient, run, run-atomic, run-IsSealed, IsSealed,
}
use fido_key_wrap.Protector.Guarded.{run-unauthenticated, managed-unauthenticated}
use fido_key_wrap.Protector.Unlocking.{IsRecovered, unlock-IsRecovered}
use fido_key_wrap.Protector.Adding.{HasRoute, add_recipient-adds, add_recovery_secret-adds}
use fido_key_wrap.Protector.Freshness.{IsFresh}
use fido_key_wrap.Protector.Reached.{
  Reached, protected_by_secret, Reached-IsSealed, create_root-HasRoute,
}
use fido_key_wrap.Protector.Removal.{others, remove_recipient-removes}
use fido_key_wrap.Tests.Fixtures.{small_wire, small_wire_laws, small_suite, small_suite_laws}
use fido_key_wrap.Tests.World.{
  scripted, protector, root, label, one, secret, two, second_secret, new_root, guarded, enrollment,
  some_keys,
}
use fido_key_wrap.Tests.Runs.{
  one_made, two_made, guarded_made, unlocked, mismatch, two_mismatch, staged, added,
}

one-Reached : Reached small_wire small_suite scripted protector root one
one-Reached = protected_by_secret label 1 one secret (ap (λ r. r.0) one_made)

one-IsSealed : IsSealed small_wire small_suite root one
one-IsSealed =
    Reached-IsSealed small_wire small_wire_laws small_suite scripted protector root one one-Reached

-- The run of the addition ends in the two recipients.
after_run :
    (run small_wire small_suite scripted protector root (add_secret label) (one, 5)).1.0 ≡ two
unfolding discard
after_run = ap (λ r. r.1.0) two_made

two-IsSealed : IsSealed small_wire small_suite root two
two-IsSealed =
    let after =
      run-IsSealed small_wire small_wire_laws small_suite scripted protector root (add_secret label)
        one 5 one-IsSealed in
    subst (IsSealed small_wire small_suite root) (after_run) after

Reached-IsSealed_example : IsSealed small_wire small_suite root one
Reached-IsSealed_example =
    Reached-IsSealed small_wire small_wire_laws small_suite scripted protector root one one-Reached

run-IsSealed_example :
    IsSealed small_wire small_suite root
      (run small_wire small_suite scripted protector root (add_secret label) (one, 5)).1.0
run-IsSealed_example =
    run-IsSealed small_wire small_wire_laws small_suite scripted protector root (add_secret label)
      one 5 one-IsSealed

run-unauthenticated_example :
    (x : Error) × (run small_wire small_suite scripted protector
        (replicate 32 78)
        (add_secret label)
        (one, 5)
      ≡ (err x, (one, 5)))
run-unauthenticated_example =
    run-unauthenticated small_wire small_suite scripted protector (replicate 32 78)
      (add_secret label) one 5 (λ e. cc (e, mismatch))

managed-unauthenticated_example :
    ((x : Error) × (verify_managed_recipient small_wire small_suite scripted protector one
          (replicate 32 78)
          (replicate 32 3)
          5
        ≡ (err x, 5)))
    × ((x : Error) × (retire_managed_recipient small_wire small_suite scripted protector one
            (replicate 32 78)
            (replicate 32 3)
            5
          ≡ (err x, 5)))
managed-unauthenticated_example =
    managed-unauthenticated small_wire small_suite scripted protector one (replicate 32 78)
      (replicate 32 3) 5 (λ e. cc (e, mismatch))

unlock-IsRecovered_example :
    IsRecovered small_wire small_suite protector guarded (replicate 32 3) new_root
unlock-IsRecovered_example =
    unlock-IsRecovered small_wire small_suite scripted protector guarded (replicate 32 3) new_root 9
      (ap (λ r. r.0) unlocked)

create_root-HasRoute_example : HasRoute small_wire small_suite guarded (replicate 32 3) new_root
create_root-HasRoute_example =
    create_root-HasRoute small_wire small_wire_laws small_suite scripted protector enrollment 1
      new_root guarded (replicate 32 3) (ap (λ r. r.0) guarded_made)

add_recovery_secret-adds_example :
    IsFresh one second_secret.0
    × HasRoute small_wire small_suite
        (add_recovery_secret small_wire small_suite scripted protector root label (one, 5)).1.0
        second_secret.0
        root
add_recovery_secret-adds_example =
    add_recovery_secret-adds small_wire small_wire_laws small_suite scripted protector root label
      one 5 second_secret.0 second_secret.1 (ap (λ r. r.0) two_made)

abbrev second_record : RecipientRecord
second_record = recovery_secret (record {
  id = replicate 32 6;
  label = label;
  recovery_nonce = replicate 12 7;
  wrapped_root = replicate 32 77 ++ replicate 16 9;
})

second_found : lookup (replicate 32 6) two.recipients ≡ some second_record
unfolding cmp_bytes
second_found = refl

refused_change :
    (x : Error) × (run small_wire small_suite scripted protector
        (replicate 32 78)
        (drop_recipient (replicate 32 3))
        (two, 8)
      ≡ (err x, (two, 8)))
refused_change =
    run-unauthenticated small_wire small_suite scripted protector (replicate 32 78)
      (drop_recipient (replicate 32 3)) two 8 (λ e. cc (e, two_mismatch))

run-atomic_example :
    (run small_wire small_suite scripted protector
      (replicate 32 78)
      (drop_recipient (replicate 32 3))
      (two, 8)).1.0
    ≡ two
run-atomic_example =
    run-atomic small_wire small_suite scripted protector (replicate 32 78)
      (drop_recipient (replicate 32 3)) two 8 refused_change.0 (ap (λ r. r.0) refused_change.1)

remove_recipient-removes_example :
    (mac : Bytes) × (remove_recipient small_wire small_suite {World = ℕ} protector root
        (replicate 32 6)
        (two, 8)
      ≡ (ok tt, (record two { recipients = others (replicate 32 6) two.recipients; mac = mac }, 8)))
    × IsSealed small_wire small_suite root
        (record two { recipients = others (replicate 32 6) two.recipients; mac = mac })
remove_recipient-removes_example =
    remove_recipient-removes small_wire small_wire_laws small_suite small_suite_laws protector root
      (replicate 32 6) two second_record 8 two-IsSealed refl second_found (omega arith)

compute_envelope_mac-total_example :
    (mac : Bytes) × (compute_envelope_mac small_wire small_suite one root ≡ ok mac) × IsArray 32 mac
compute_envelope_mac-total_example =
    compute_envelope_mac-total small_wire small_wire_laws small_suite small_suite_laws one root
      one-IsSealed.well_formed

stage_existing_record-IsVerified_example :
    IsVerified small_wire small_suite one (replicate 32 3) root some_keys
    × ((mac : Bytes) × (compute_envelope_mac small_wire small_suite one root ≡ ok mac)
        × (encode small_wire one ≡ encode small_wire (record one { mac = mac })))
stage_existing_record-IsVerified_example =
    stage_existing_record-IsVerified small_wire small_wire_laws small_suite one one (replicate 32 3)
      root some_keys staged

add_recipient-adds_example :
    IsFresh one (replicate 32 5)
    × HasRoute small_wire small_suite
        (add_recipient small_wire small_suite scripted protector root enrollment (one, 5)).1.0
        (replicate 32 5)
        root
add_recipient-adds_example =
    add_recipient-adds small_wire small_wire_laws small_suite scripted protector root enrollment one
      5 (replicate 32 5) added
