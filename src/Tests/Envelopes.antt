-- ===== src/Tests/Envelopes.antt =====
-- The properties of the codec and of the cryptographic bindings at a small envelope.
use fido_key_wrap.Common.{◌≡◌, ◌↔◌, ◌≤◌, refl, [], replicate, length, Bytes, cmp_bytes}
use fido_key_wrap.Common.Text.{ascii_bytes}
use fido_key_wrap.Error.{Result, ok, err, ok_or, recipient_not_found}
use fido_key_wrap.Transcript
use fido_key_wrap.Envelope.{RecipientRecord, max_envelope_size, recovery_secret}
use fido_key_wrap.Envelope.Encode.{encode}
use fido_key_wrap.Envelope.Decode.{decode}
use fido_key_wrap.Envelope.WellFormed.{IsWellFormed}
use fido_key_wrap.Envelope.Canonical.{decode_iff}
use fido_key_wrap.Envelope.Size.{length-encode}
use fido_key_wrap.Envelope.Find.{find}
use fido_key_wrap.Envelope.Find.Laws.{lookup, find-eq-lookup}
use fido_key_wrap.Envelope.Recipients.{validate_recipient_set}
use fido_key_wrap.Envelope.Recipients.Laws.{
  AllPairs, Before, IsRecipientSet, validate_recipient_set_iff,
}
use fido_key_wrap.Crypto.Context
use fido_key_wrap.Crypto.Context.{recipient_context_transcript, recovery_secret_context_transcript}
use fido_key_wrap.Crypto.Context.Binding.{recipient_context_transcript_binds, IsSameBinding}
use fido_key_wrap.Tests.Fixtures.{small_wire, small_wire_laws}
use fido_key_wrap.Tests.World.{application, label, one, two}
use fido_key_wrap.Tests.Runs.{one_decodes}

one-IsWellFormed : IsWellFormed small_wire one
one-IsWellFormed =
    ((decode_iff small_wire small_wire_laws (encode small_wire one) one).0 one_decodes).0

decode_iff_example :
    (decode small_wire (encode small_wire one) ≡ ok one)
    ↔ (IsWellFormed small_wire one × (encode small_wire one ≡ encode small_wire one))
decode_iff_example = decode_iff small_wire small_wire_laws (encode small_wire one) one

length-encode_example : (length (encode small_wire one) ≤ 46_352) × (46_352 ≤ max_envelope_size)
length-encode_example = length-encode small_wire small_wire_laws one one-IsWellFormed

two_ordered : AllPairs Before two.recipients
unfolding cmp_bytes
two_ordered = ((refl, tt), (tt, tt))

find-eq-lookup_example :
    find two (replicate 32 6) ≡ ok_or recipient_not_found (lookup (replicate 32 6) two.recipients)
find-eq-lookup_example = find-eq-lookup two (replicate 32 6) two_ordered

validate_recipient_set_iff_example :
    (validate_recipient_set two.recipients ≡ ok tt) ↔ IsRecipientSet two.recipients
validate_recipient_set_iff_example = validate_recipient_set_iff two.recipients

abbrev first_record : RecipientRecord
first_record = recovery_secret (record {
  id = replicate 32 3;
  label = label;
  recovery_nonce = replicate 12 4;
  wrapped_root = replicate 48 0;
})

abbrev bytes_of : Result Bytes → Bytes
bytes_of (ok b) = b
bytes_of (err _) = []

transcript_bytes : Bytes
transcript_bytes = bytes_of (recipient_context_transcript first_record application (replicate 32 1))

transcript_made :
    recipient_context_transcript first_record application (replicate 32 1) ≡ ok transcript_bytes
unfolding transcript_bytes recipient_context_transcript recovery_secret_context_transcript
    Transcript.encode Transcript.check_capacity ascii_bytes Context.recipient_context_domain
transcript_made = refl

recipient_context_transcript_binds_example :
    IsSameBinding first_record first_record application application
      (replicate 32 1)
      (replicate 32 1)
recipient_context_transcript_binds_example =
    recipient_context_transcript_binds application application (replicate 32 1) (replicate 32 1)
      transcript_bytes first_record first_record tt tt transcript_made transcript_made
