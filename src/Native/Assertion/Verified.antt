-- ===== src/Native/Assertion/Verified.antt =====
-- What stands behind a secret that `Authenticator::evaluate` of
-- crates/fido-key-wrap-libfido2/src/native.rs returns.
use fido_key_wrap.Common.{
  ℕ, ◌≡◌, refl, ap, sym, ◌∙◌, Bool, true, false, not, ◌||◌, ◌==◌, Option, none, some, Bytes, length,
  take, eq_bytes→eq, arith, if◌then◌else◌,
}
use mathlib.Core.Path.{subst}
use fido_key_wrap.Native.Errors.{
  ℤ, eq_int, eq_int→eq, Error, verification_failed, fault, done, fault_if, done_or,
}
use fido_key_wrap.Native.Action.Runs.{Ends, Ends-bind, Ends-lift, Ends-reads, Ends-call}
use fido_key_wrap.Native.Status.{fido_ok, cose_es256}
use fido_key_wrap.Native.Library.{Library, Handle}
use fido_key_wrap.Native.Request.{ExactPolicy, PrfRequest, secret_bytes}
use fido_key_wrap.Native.Credential.{flags_match}
use fido_key_wrap.Native.Device.{checked}
use fido_key_wrap.Native.Selection.{Authenticator}
use fido_key_wrap.Native.Assertion.{
  points_to, from_bytes, verify_identity, exact_secret_pointer, copy_secret, verified_secret,
}
use fido_key_wrap.Native.Authenticator.{evaluate}

equal : (a b : ℕ) → (a == b) ≡ true → a ≡ b
equal a b h = ground arith

passed : {E : Type 0} (t : Bool) (e : E) → fault_if (not t) e ≡ done tt → t ≡ true
passed true e h = refl
passed false e h = cc h

both_hold :
    (x y : Bool) (e : Error) → fault_if (not x || not y) e ≡ done tt → (x ≡ true) × (y ≡ true)
both_hold true true e h = (refl, refl)
both_hold true false e h = cc h
both_hold false y e h = cc h

module _ {W : Type 0} (lib : Library W) where
  pointed :
      (pointer : Option Bytes) (len : ℕ) (expected : Bytes)
      → points_to lib pointer len expected ≡ true
      → (bytes : Bytes) × (pointer ≡ some bytes) × (take len bytes ≡ expected)
  pointed none len expected h = cc h
  pointed (some bytes) len expected h = (bytes, refl, eq_bytes→eq (take len bytes) expected h)

  pointer_of :
      (pointer : Option Bytes) (fits : Bool) (secret : Bytes)
      → copy_secret lib
          (if not fits then fault verification_failed else done_or verification_failed pointer)
        ≡ done secret
      → (fits ≡ true)
        × ((bytes : Bytes) × (pointer ≡ some bytes) × (secret ≡ take secret_bytes bytes))
  unfolding copy_secret
  pointer_of none true secret h = cc h
  pointer_of (some bytes) true secret h = (refl, (bytes, refl, cc h))
  pointer_of pointer false secret h = cc h

module _ {W : Type 0} (lib : Library W) where
  open lib use {
    fido_assert_verify, fido_assert_count, fido_assert_flags, fido_assert_id_ptr,
    fido_assert_id_len, fido_assert_hmac_secret_ptr, fido_assert_hmac_secret_len,
  }

  -- The assertion is one for the credential: its signature has been verified with the public key, the
  -- last call that could change anything, its flags are those of the policy, and its identity is that of
  -- the credential.
  pub record IsVerified (raw : Handle) (id key : Bytes) (policy : ExactPolicy) (w : W)
      : Type 0 where
    pub loaded : Handle
    pub after : W
    pub alone : W
    pub counted : fido_assert_count raw alone ≡ 1
    pub key_of : Ends (from_bytes lib key) alone (done loaded) after
    pub signed : fido_assert_verify raw 0 cose_es256 loaded after ≡ (fido_ok, w)
    pub flags : flags_match (fido_assert_flags raw 0 w) policy ≡ true
    pub size : fido_assert_id_len raw 0 w ≡ length id
    pub identity :
        (bytes : Bytes) × (fido_assert_id_ptr raw 0 w ≡ some bytes) × (take (length id) bytes ≡ id)

  -- The secret is what the assertion has for it.
  pub record IsSecret (raw : Handle) (secret : Bytes) (w : W) : Type 0 where
    pub size : fido_assert_hmac_secret_len raw 0 w ≡ secret_bytes
    pub copied :
        (bytes : Bytes) × (fido_assert_hmac_secret_ptr raw 0 w ≡ some bytes)
        × (secret ≡ take secret_bytes bytes)

  checked-ok :
      (translate : ℤ → Error) (f : W → ℤ × W) {w w' : W}
      → Ends (checked translate f) w (done tt) w'
      → f w ≡ (fido_ok, w')
  unfolding checked
  checked-ok translate f h =
      let (status, v, hc, k) = Ends-bind _ _ h in
      let (e, same) = Ends-lift _ k in
      let good = eq_int→eq status fido_ok (passed (eq_int status fido_ok) _ e) in
      Ends-call f hc ∙ ap (λ s. (s, v)) good ∙ ap (λ t. (fido_ok, t)) same

  verify_identity-IsVerified :
      (raw : Handle) (id key : Bytes) (policy : ExactPolicy) {w w' : W}
      → Ends (verify_identity lib raw id key policy) w (done tt) w'
      → IsVerified raw id key policy w'
  unfolding verify_identity
  verify_identity-IsVerified raw id key policy h =
      let (_, v, hc, k1) = Ends-bind _ _ h in
      let (key', v1, hk, k2) = Ends-bind _ _ k1 in
      let (_, v2, hs, k3) = Ends-bind _ _ k2 in
      let (_, v3, hf, k4) = Ends-bind _ _ k3 in
      let (ec, sc) = Ends-reads _ hc in
      let (ef, sf) = Ends-reads _ hf in
      let (ei, si) = Ends-reads _ k4 in
      let (size, same) = both_hold _ _ _ ei in
      let (bytes, ep, et) = pointed lib _ _ id same in
      let long = equal _ _ size in
      record {
        loaded = key';
        alone = v;
        after = v1;
        counted = subst (λ t. fido_assert_count raw t ≡ 1) sc (equal _ _ (passed _ _ ec));
        key_of = hk;
        signed = checked-ok _ _ hs ∙ ap (λ t. (fido_ok, t)) (sf ∙ si);
        flags =
            subst (λ t. flags_match (fido_assert_flags raw 0 t) policy ≡ true) (sf ∙ si)
              (passed _ _ ef);
        size = subst (λ t. fido_assert_id_len raw 0 t ≡ length id) si long;
        identity = (
          bytes,
          subst (λ t. fido_assert_id_ptr raw 0 t ≡ some bytes) si ep,
          ap (λ n. take n bytes) (sym long) ∙ et,
        );
      }

  verified_secret-IsSecret :
      (raw : Handle) (id key secret : Bytes) (policy : ExactPolicy) {w w' : W}
      → Ends (verified_secret lib raw id key policy) w (done secret) w'
      → IsVerified raw id key policy w' × IsSecret raw secret w'
  unfolding verified_secret exact_secret_pointer
  verified_secret-IsSecret raw id key secret policy h =
      let (_, _, hv, k) = Ends-bind _ _ h in
      let (e, same) = Ends-reads _ k in
      let (fits, (bytes, ep, et)) = pointer_of lib _ _ secret e in
      (
        verify_identity-IsVerified raw id key policy (moved hv same),
        record {
          size =
              subst (λ t. fido_assert_hmac_secret_len raw 0 t ≡ secret_bytes) same (equal _ _ fits);
          copied =
              (bytes, subst (λ t. fido_assert_hmac_secret_ptr raw 0 t ≡ some bytes) same ep, et);
        },
      )
    where
      moved :
          {v v' u : W}
          → Ends (verify_identity lib raw id key policy) v (done tt) v'
          → v' ≡ u
          → Ends (verify_identity lib raw id key policy) v (done tt) u
      moved {v} hv same =
          subst (λ u. Ends (verify_identity lib raw id key policy) v (done tt) u) same hv

  -- A secret that `evaluate` returns is the one that an assertion holds of which the signature under the
  -- stored public key, the flags of the policy and the identity of the credential have been verified.
  pub evaluate-IsVerified :
      (a : Authenticator) (request : PrfRequest) (pin : Option Bytes) {w w' : W} {secret : Bytes}
      → Ends (evaluate lib a request pin) w (done secret) w'
      → (raw : Handle) × IsVerified raw request.credential_id request.es256_public_key
          request.policy w'
        × IsSecret raw secret w'
  unfolding evaluate
  evaluate-IsVerified a request pin {secret = secret} h =
      let (_, _, _, h1) = Ends-bind _ _ h in
      let (_, _, _, h2) = Ends-bind _ _ h1 in
      let (_, _, _, h3) = Ends-bind _ _ h2 in
      let (_, _, _, h4) = Ends-bind _ _ h3 in
      let (raw, _, _, h5) = Ends-bind _ _ h4 in
      let (_, _, _, h6) = Ends-bind _ _ h5 in
      let (_, _, _, h7) = Ends-bind _ _ h6 in
      let (good, from) = verified_secret-IsSecret raw _ _ secret request.policy h7 in
      (raw, good, from)
