-- ===== src/Native/Inspection.antt =====
-- crates/fido-key-wrap-libfido2/src/native.rs: `Backend::inspect_authenticators`, the report on all
-- devices.
use fido_key_wrap.Common.{Bool, true, false, not, List, [], ◌∷◌, ◌++◌, ◌≡◌, refl, ◌↔◌, ◌&&◌, Bytes}
use fido_key_wrap.Native.Errors.{Error, Outcome, fault, done}
use fido_key_wrap.Native.Action.{Action, pure, attempt, ◌>>=◌, ◌>>◌}
use fido_key_wrap.Native.Library.{Library, Handle}
use fido_key_wrap.Native.Request.{Config, Capabilities, compatible}
use fido_key_wrap.Native.Device.{manifest, open_device, capabilities}
use fido_key_wrap.Native.Selection.{initialize_thread}

data Incompatibility : Type 0 where
  not_fido2 missing_hmac_secret missing_credential_protection missing_es256 : Incompatibility
  missing_client_pin client_pin_not_configured : Incompatibility

data DeviceStatus : Type 0 where
  is_compatible : Capabilities → DeviceStatus
  is_incompatible : Capabilities → List Incompatibility → DeviceStatus
  is_unavailable : Error → DeviceStatus

record DeviceReport : Type 0 where
  status : DeviceStatus

-- `if test { reasons.push(reason) }`
abbrev push_if : Bool → Incompatibility → List Incompatibility
push_if true reason = reason ∷ []
push_if false reason = []

-- The branches on the client PIN, by whether it is supported and configured.
abbrev pin_reasons : Bool → Bool → List Incompatibility
pin_reasons false _ = missing_client_pin ∷ []
pin_reasons true configured = push_if (not configured) client_pin_not_configured

unfoldable incompatibilities : Capabilities → List Incompatibility
incompatibilities c =
    push_if (not c.fido2) not_fido2
    ++ (push_if (not c.hmac_secret) missing_hmac_secret
        ++ (push_if (not c.credential_protection) missing_credential_protection
            ++ (push_if (not c.es256) missing_es256
                ++ pin_reasons c.client_pin_supported c.client_pin_configured)))

unfoldable judged : Capabilities → List Incompatibility → DeviceStatus
judged c [] = is_compatible c
judged c (reason ∷ reasons) = is_incompatible c (reason ∷ reasons)

unfoldable status_for_capabilities : Capabilities → DeviceStatus
status_for_capabilities c = judged c (incompatibilities c)

module _ {W : Type 0} (lib : Library W) where
  unfoldable examined : Outcome Error Capabilities → DeviceStatus
  examined (fault e) = is_unavailable e
  examined (done c) = status_for_capabilities c

  unfoldable opened : Outcome Error Handle → Action W Error DeviceStatus
  opened (fault e) = pure (is_unavailable e)
  opened (done device) = do c ← attempt (capabilities lib device); pure (examined c)

  -- The `map` over the candidates.
  unfoldable report_all : Config → List Bytes → Action W Error (List DeviceReport)
  report_all config [] = pure []
  report_all config (path ∷ paths) = do
    device ← attempt (open_device lib path config)
    status ← opened device
    reports ← report_all config paths
    pure (record { status = status } ∷ reports)

  unfoldable inspect_authenticators : Config → Action W Error (List DeviceReport)
  inspect_authenticators config = do
    initialize_thread lib
    candidates ← manifest lib config.max_devices
    report_all config candidates

reasonless :
    (fido2 hmac protection es256 supported configured : Bool)
    → (push_if (not fido2) not_fido2
          ++ (push_if (not hmac) missing_hmac_secret
              ++ (push_if (not protection) missing_credential_protection
                  ++ (push_if (not es256) missing_es256 ++ pin_reasons supported configured)))
        ≡ [])
      ↔ ((fido2 && hmac && protection && es256 && supported && configured) ≡ true)
reasonless true true true true true true = (λ h. refl, λ h. refl)
reasonless true true true true true false = (λ h. cc h, λ h. cc h)
reasonless true true true true false c = (λ h. cc h, λ h. cc h)
reasonless true true true false s c = (λ h. cc h, λ h. cc h)
reasonless true true false e s c = (λ h. cc h, λ h. cc h)
reasonless true false p e s c = (λ h. cc h, λ h. cc h)
reasonless false m p e s c = (λ h. cc h, λ h. cc h)

-- A device has no reason against it exactly when it can implement the protocol.
incompatibilities_iff : (c : Capabilities) → (incompatibilities c ≡ []) ↔ (compatible c ≡ true)
unfolding incompatibilities compatible
incompatibilities_iff c =
    reasonless c.fido2 c.hmac_secret c.credential_protection c.es256 c.client_pin_supported
      c.client_pin_configured
