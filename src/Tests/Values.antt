-- ===== src/Tests/Values.antt =====
-- The properties of identities, policies, settings and prompts at small values.
use fido_key_wrap.Common.{◌≡◌, ◌↔◌, ◌⊎◌, ◌≤◌, ◌*◌, refl, true, [], ◌∷◌, List, Bytes, arith}
use fido_key_wrap.Error.{ok, err, invalid_passphrase_parameters, invalid_passphrase_limits}
use fido_key_wrap.Policy.Parameters.{
  new_parameters_exact, IsFormat1, IsFormat1Parameters, limits_exact, IsLimits, limits, lightest,
  accepts, protocol_max, desktop_limits, new_limits, desktop, min_memory_kib, min_passes,
}
use fido_key_wrap.Policy.Label.{validate_label}
use fido_key_wrap.Policy.Enrollment.{
  requested, with_passphrase, requested-IsEnrollment, IsEnrollment, for_passphrase_with_parameters,
  build,
}
use fido_key_wrap.Ident.Application
use fido_key_wrap.Ident.Application.Grammar.{IsApplicationId, new_application_exact}
use fido_key_wrap.Transcript
use fido_key_wrap.Transcript.{encode-injective, encode-total, max_fields, Fits}
use fido_key_wrap.Policy.Parameters
use fido_key_wrap.Tests.World.{application, label, enrollment, light}

new_parameters_exact_example :
    ((Parameters.new 65_536 3 4 ≡ ok (record { memory_kib = 65_536; passes = 3; lanes = 4 }))
      ↔ IsFormat1 65_536 3 4)
    × (¬ IsFormat1 65_536 3 4 → Parameters.new 65_536 3 4 ≡ err invalid_passphrase_parameters)
new_parameters_exact_example = new_parameters_exact 65_536 3 4

pub light-IsFormat1 : IsFormat1Parameters light
light-IsFormat1 = record {
  lanes_lo = omega arith;
  lanes_hi = omega arith;
  passes_lo = omega arith;
  passes_hi = omega arith;
  memory_lo = omega arith;
  memory_hi = omega arith;
  whole_slices = refl;
}

limits_exact_example :
    ((IsLimits 262_144 786_432
        × (new_limits 262_144 786_432 ≡ ok (limits 262_144 786_432))
        × (accepts (limits 262_144 786_432) lightest ≡ true))
      ⊎ ((¬ IsLimits 262_144 786_432)
          × (new_limits 262_144 786_432 ≡ err invalid_passphrase_limits)))
    × ((accepts (limits 262_144 786_432) light ≡ true)
        ↔ ((light.memory_kib ≤ 262_144) × (light.memory_kib * light.passes ≤ 786_432)))
    × (accepts protocol_max light ≡ true)
limits_exact_example = limits_exact light 262_144 786_432 light-IsFormat1

enrollment_is_requested : requested (with_passphrase label light) ≡ ok enrollment
unfolding for_passphrase_with_parameters build validate_label
enrollment_is_requested = refl

requested-IsEnrollment_example : IsEnrollment enrollment
requested-IsEnrollment_example =
    requested-IsEnrollment (with_passphrase label light) enrollment enrollment_is_requested

new_application_exact_example :
    ((Application.new application ≡ ok application) ↔ IsApplicationId application)
    × ((t : Bytes) → Application.new application ≡ ok t → t ≡ application)
new_application_exact_example = new_application_exact application

abbrev fields : List Bytes
fields = (7 ∷ []) ∷ [] ∷ []

two_fields : Transcript.encode fields ≡ ok (0 ∷ 0 ∷ 0 ∷ 2 ∷ 0 ∷ 0 ∷ 0 ∷ 1 ∷ 7 ∷ 0 ∷ 0 ∷ 0 ∷ 0 ∷ [])
unfolding Transcript.encode Transcript.check_capacity Transcript.write_fields Transcript.to_be_bytes
two_fields = refl

encode-injective_example : fields ≡ fields
encode-injective_example =
    encode-injective fields fields (0 ∷ 0 ∷ 0 ∷ 2 ∷ 0 ∷ 0 ∷ 0 ∷ 1 ∷ 7 ∷ 0 ∷ 0 ∷ 0 ∷ 0 ∷ [])
      two_fields two_fields

encode-total_example : (b : Bytes) × (Transcript.encode ((7 ∷ []) ∷ [] ∷ []) ≡ ok b)
encode-total_example =
    encode-total ((7 ∷ []) ∷ [] ∷ []) (omega arith) (omega arith, (omega arith, tt))
