-- ===== src/Vault/Reports.antt =====
-- How the Vault checker reads a response.
use go_healthcheck.Prelude.{Option-cases, inl, inr, ℕ, ◌≡◌, ◌⊎◌, true, false, some, arith}
use go_healthcheck.Json.{Time}
use go_healthcheck.Core.Types.{ComponentStatus, StatusEnum, status_pass, status_fail, status_warn}
use go_healthcheck.Vault.{HealthResponse, judge}

-- An initialised, unsealed Vault.
abbrev pub IsUnsealed : HealthResponse → Type 0
IsUnsealed r = (r.initialized ≡ true) × (r.sealed ≡ false)

-- What a status says of the response that led to it.
abbrev pub Explains : HealthResponse → StatusEnum → Type 0
Explains r s =
    ((s ≡ status_pass) × IsUnsealed r × (r.standby ≡ false) × (r.performance_standby ≡ false))
    ⊎ ((s ≡ status_warn) × IsUnsealed r × (r.standby ≡ true))
    ⊎ ((s ≡ status_fail)
        × ((r.initialized ≡ false)
            ⊎ (r.sealed ≡ true)
            ⊎ ((r.standby ≡ false) × (r.performance_standby ≡ true))))

-- Every response gets a status, though the chain of tests has no last else: "pass" for an active
-- Vault, "warn" for an unsealed standby, and "fail" for one that is uninitialised, sealed, or a
-- performance standby that is not a standby.
pub judge-Explains :
    (r : HealthResponse) (start : Time) (elapsed : ℕ)
    → (s : ComponentStatus) × (judge r start elapsed ≡ some s) × Explains r s.status
unfolding judge
judge-Explains r start elapsed = elim (Option-cases (judge r start elapsed)) [
  | inl e ↦ absurd (ground arith)
  | inr (s, e) ↦ (s, e, ground arith)
]
