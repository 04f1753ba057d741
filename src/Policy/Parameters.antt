-- ===== src/Policy/Parameters.antt =====
-- crates/fido-key-wrap/src/policy.rs: argon2id work (`PassphraseParameters`) and the local ceilings
-- (`PassphraseLimits`). Products of machine integers keep their wrap-around or overflow test.
use fido_key_wrap.Common.{
  ℕ, ◌-◌, ◌*◌, ◌%◌, ◌^◌, ◌≤◌, ◌≡◌, ◌↔◌, Bool, true, not, ◌&&◌, ◌||◌, Option, none, some, leb, ltb,
  ◌==◌, if◌then◌else◌, arith, Bool-cases, ◌⊎◌, inl, inr,
}
use fido_key_wrap.Error.{
  Result, ok, err, map_err, ok_or, reject_if, ◌>>◌, invalid_envelope, invalid_passphrase_parameters,
  invalid_passphrase_limits,
}

abbrev pub min_memory_kib : ℕ
min_memory_kib = 65_536

abbrev pub max_memory_kib : ℕ
max_memory_kib = 262_144

abbrev pub min_passes : ℕ
min_passes = 3

abbrev pub max_passes : ℕ
max_passes = 6

abbrev pub min_lanes : ℕ
min_lanes = 1

abbrev pub max_lanes : ℕ
max_lanes = 4

abbrev pub min_work : ℕ
min_work = 196_608

abbrev pub desktop_work : ℕ
desktop_work = 786_432

abbrev pub max_work : ℕ
max_work = 1_572_864

-- The largest `usize` of the 64-bit targets.
abbrev pub usize_max : ℕ
usize_max = 2 ^ 64 - 1

pub record PassphraseParameters : Type 0 where
  pub memory_kib : ℕ
  pub passes : ℕ
  pub lanes : ℕ

-- `PassphraseParameters::DESKTOP`
abbrev pub desktop : PassphraseParameters
desktop = record { memory_kib = max_memory_kib; passes = min_passes; lanes = max_lanes }

-- `(lo..=hi).contains(&x)`
abbrev pub within : ℕ → ℕ → ℕ → Bool
within lo hi x = leb lo x && leb x hi

-- `u64::checked_mul`
abbrev checked_mul : ℕ → ℕ → Option ℕ
checked_mul a b = if ltb (a * b) (2 ^ 64) then some (a * b) else none

-- `usize::try_from`
abbrev to_usize : ℕ → Option ℕ
to_usize n = if leb n usize_max then some n else none

infixl 5 ◌>>?◌
abbrev ◌>>?◌ : {A : Type 0} → Option A → (A → Option (Unit {0})) → Option (Unit {0})
none >>? f = none
some a >>? f = f a

unfoldable pub validate_parameters : ℕ → ℕ → ℕ → Option (Unit {0})
validate_parameters memory_kib passes lanes =
    if not (within min_lanes max_lanes lanes)
      || not (within min_passes max_passes passes)
      || not (within min_memory_kib max_memory_kib memory_kib)
    then none
    else if ltb memory_kib (8 * lanes) || not (memory_kib % (4 * lanes) == 0)
    then none
    else checked_mul memory_kib passes >>? λ _. checked_mul memory_kib 1024 >>? λ bytes.
        to_usize memory_kib >>? λ _. to_usize bytes >>? λ _. some tt

-- `PassphraseParameters::new`
unfoldable pub new : ℕ → ℕ → ℕ → Result PassphraseParameters
unfolding validate_parameters
new memory_kib passes lanes = do
  ok_or invalid_passphrase_parameters (validate_parameters memory_kib passes lanes)
  ok (record { memory_kib = memory_kib; passes = passes; lanes = lanes })

-- `PassphraseParameters::decode`
unfoldable pub decode : ℕ → ℕ → ℕ → Result PassphraseParameters
decode memory_kib passes lanes = map_err invalid_envelope (new memory_kib passes lanes)

unfoldable pub work_kib_passes : PassphraseParameters → ℕ
work_kib_passes p = p.memory_kib * p.passes % 2 ^ 64

pub record PassphraseLimits : Type 0 where
  pub limit_memory_kib : ℕ
  pub limit_work_kib_passes : ℕ

abbrev pub desktop_limits : PassphraseLimits
desktop_limits = record { limit_memory_kib = max_memory_kib; limit_work_kib_passes = desktop_work }

abbrev pub protocol_max : PassphraseLimits
protocol_max = record { limit_memory_kib = max_memory_kib; limit_work_kib_passes = max_work }

-- `PassphraseLimits::new`
unfoldable pub new_limits : ℕ → ℕ → Result PassphraseLimits
new_limits memory work = do
  reject_if
      (not (within min_memory_kib max_memory_kib memory) || not (within min_work max_work work))
      invalid_passphrase_limits
  ok (record { limit_memory_kib = memory; limit_work_kib_passes = work })

unfoldable pub accepts : PassphraseLimits → PassphraseParameters → Bool
unfolding work_kib_passes
accepts l p = leb p.memory_kib l.limit_memory_kib && leb (work_kib_passes p) l.limit_work_kib_passes

-- The parameters that format 1 allows.
pub record IsFormat1 (memory_kib passes lanes : ℕ) : Type 0 where
  pub lanes_lo : min_lanes ≤ lanes
  pub lanes_hi : lanes ≤ max_lanes
  pub passes_lo : min_passes ≤ passes
  pub passes_hi : passes ≤ max_passes
  pub memory_lo : min_memory_kib ≤ memory_kib
  pub memory_hi : memory_kib ≤ max_memory_kib
  pub whole_slices : memory_kib % (4 * lanes) ≡ 0

abbrev pub IsFormat1Parameters : PassphraseParameters → Type 0
IsFormat1Parameters p = IsFormat1 p.memory_kib p.passes p.lanes

product_bound : (m p : ℕ) → m ≤ max_memory_kib → p ≤ max_passes → m * p ≤ max_work
product_bound m p h k = grind arith

pub new-of_format1 :
    (m p l : ℕ)
    → IsFormat1 m p l
    → new m p l ≡ ok (record { memory_kib = m; passes = p; lanes = l })
unfolding new
new-of_format1 m p l h = ground (arith, product_bound m p)

pub IsFormat1-of_new :
    (m p l : ℕ) {q : PassphraseParameters}
    → new m p l ≡ ok q
    → IsFormat1 m p l × (q ≡ record { memory_kib = m; passes = p; lanes = l })
unfolding new
IsFormat1-of_new m p l h = ground arith

-- The tests for a product or a byte count that does not fit never fail: `new` accepts exactly the
-- values of format 1, returns them unchanged, and otherwise reports invalid parameters.
pub new_parameters_exact :
    (m p l : ℕ)
    → ((new m p l ≡ ok (record { memory_kib = m; passes = p; lanes = l })) ↔ IsFormat1 m p l)
      × (¬ IsFormat1 m p l → new m p l ≡ err invalid_passphrase_parameters)
unfolding new
new_parameters_exact m p l =
    ((λ h. (IsFormat1-of_new m p l h).0, new-of_format1 m p l), λ h. ground (arith, h))

-- The ceilings that may be set.
pub record IsLimits (memory work : ℕ) : Type 0 where
  pub memory_lo : min_memory_kib ≤ memory
  pub memory_hi : memory ≤ max_memory_kib
  pub work_lo : min_work ≤ work
  pub work_hi : work ≤ max_work

abbrev pub limits : ℕ → ℕ → PassphraseLimits
limits memory work = record { limit_memory_kib = memory; limit_work_kib_passes = work }

-- The least work of format 1.
abbrev pub lightest : PassphraseParameters
lightest = record { memory_kib = min_memory_kib; passes = min_passes; lanes = min_lanes }

pub accepts_iff :
    (l : PassphraseLimits) (p : PassphraseParameters)
    → IsFormat1Parameters p
    → (accepts l p ≡ true)
      ↔ ((p.memory_kib ≤ l.limit_memory_kib) × (p.memory_kib * p.passes ≤ l.limit_work_kib_passes))
unfolding accepts
accepts_iff l p h = (
  λ e. (ground arith, ground (arith, product_bound p.memory_kib p.passes)),
  λ e. ground (arith, product_bound p.memory_kib p.passes, e.0, e.1),
)

-- `PassphraseLimits::new` sets exactly the ceilings from the least to the most that format 1 allows in
-- memory and in work, which then admit the lightest parameters, and reports all others. Ceilings
-- admit parameters of format 1 exactly when neither the memory nor the work, as memory times passes,
-- exceeds them, and the widest admit all of them.
pub limits_exact :
    (p : PassphraseParameters) (memory work : ℕ)
    → IsFormat1Parameters p
    → ((IsLimits memory work
          × (new_limits memory work ≡ ok (limits memory work))
          × (accepts (limits memory work) lightest ≡ true))
        ⊎ ((¬ IsLimits memory work) × (new_limits memory work ≡ err invalid_passphrase_limits)))
      × ((accepts (limits memory work) p ≡ true)
          ↔ ((p.memory_kib ≤ memory) × (p.memory_kib * p.passes ≤ work)))
      × (accepts protocol_max p ≡ true)
unfolding new_limits accepts
limits_exact p memory work h = (
  elim (Bool-cases (within min_memory_kib max_memory_kib memory && within min_work max_work work)) [
    | inl e ↦ inl (
      record {
        memory_lo = ground arith;
        memory_hi = ground arith;
        work_lo = ground arith;
        work_hi = ground arith;
      },
      ground arith,
      ground arith,
    )
    | inr e ↦ inr (λ v. ground (arith, v), ground arith)
  ],
  accepts_iff (limits memory work) p h,
  ground (arith, product_bound p.memory_kib p.passes),
)
