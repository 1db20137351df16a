-- ===== src/Healing/Scores.antt =====
-- When a node is remediated, and how.
use gpuopt.Base.{
  ℕ, ◌≤◌, String, true, false, Option, none, some, [], ◌∷◌, ◌++◌, ◌≡◌, ◌⊎◌, inl, inr, refl, ltb,
  leb, if◌then◌else◌, arith, Bool-cases, string_eq,
}
use gpuopt.Base.Dict.{lookup, lookup-insert_same}
use gpuopt.Healing.{
  Telemetry, RemediationAction, cordon, drain, restart, scale_up, scale_down, reboot, proposed,
  executed, skipped, RemediationResult, AutoHealer, HealthStatus, critical, degraded, warning,
  healthy, reading, graded, risk_score, health_status, suggest_remediation, carry_out,
  execute_remediation,
}

-- The second telemetry reads no lower anywhere.
abbrev pub Worse : Telemetry → Telemetry → Type 0
Worse t u =
    (reading t.temperature ≤ reading u.temperature)
    × (reading t.ecc_errors ≤ reading u.ecc_errors)
    × (reading t.memory_utilization ≤ reading u.memory_utilization)
    × (reading t.gpu_utilization ≤ reading u.gpu_utilization)
    × (reading t.xid_errors ≤ reading u.xid_errors)

graded_le :
    (high score low score' m n : ℕ)
    → low ≤ high
    → score' ≤ score
    → m ≤ n
    → graded high score low score' m ≤ graded high score low score' n
unfolding graded
graded_le high score low score' m n order more h = ground arith

-- A reading that is no lower never lowers the score.
pub risk_score_le : (t u : Telemetry) → Worse t u → risk_score t ≤ risk_score u
unfolding risk_score
risk_score_le t u (a, b, c, d, e) = omega (
  arith,
  graded_le 85 40 75 20 (reading t.temperature) (reading u.temperature) (omega arith) (omega arith)
      a,
  graded_le 20 40 10 20 (reading t.ecc_errors) (reading u.ecc_errors) (omega arith) (omega arith) b,
  graded_le 95 30 85 15 (reading t.memory_utilization) (reading u.memory_utilization) (omega arith)
      (omega arith) c,
  graded_le 95 20 95 20 (reading t.gpu_utilization) (reading u.gpu_utilization) (omega arith)
      (omega arith) d,
  graded_le 10 50 5 25 (reading t.xid_errors) (reading u.xid_errors) (omega arith) (omega arith) e,
)

-- How drastic an action is.
abbrev pub rank : RemediationAction → ℕ
rank scale_up = 0
rank scale_down = 0
rank restart = 1
rank drain = 2
rank reboot = 2
rank cordon = 3

-- What is done: the history grows by the executed result and the node's action is active, or nothing
-- changes.
abbrev pub Done : String → AutoHealer → RemediationResult × AutoHealer → Type 0
Done node_id h (r, h') =
    (r.status ≡ executed)
    × (h'.remediation_history ≡ h.remediation_history ++ (r ∷ []))
    × (lookup node_id h'.active_remediations ≡ some r.action)

-- What the health of a node asks for.
abbrev pub Treated : HealthStatus → String → AutoHealer → RemediationResult × AutoHealer → Type 0
Treated healthy node_id h (r, h') = (r.status ≡ skipped) × (h' ≡ h)
Treated warning node_id h (r, h') = (r.status ≡ skipped) × (h' ≡ h)
Treated degraded node_id h (r, h') =
    ((r.action ≡ drain) ⊎ (r.action ≡ restart)) × Done node_id h (r, h')
Treated critical node_id h (r, h') = (r.action ≡ cordon) × Done node_id h (r, h')

-- The two functions of the score, side by side.
abbrev suggested : ℕ → String → Option RemediationResult
suggested risk node_id =
    if ltb risk 40
    then none
    else some (record {
      node_id = node_id;
      action = if leb 80 risk then cordon else (if leb 60 risk then drain else restart);
      status = proposed;
    })

suggested-Treated :
    (risk : ℕ) (node_id : String) (h : AutoHealer)
    → Treated (health_status risk) node_id h (carry_out node_id (suggested risk node_id) h)
unfolding health_status carry_out
suggested-Treated risk node_id h = elim (Bool-cases (leb 80 risk)) [
  | inl severe ↦
      let act : ltb risk 40 ≡ false = ground (arith, severe) in
      rw (act)
        (rw (severe) (refl, (refl, refl, lookup-insert_same node_id cordon h.active_remediations)))
  | inr mild ↦ elim (Bool-cases (leb 40 risk)) [
    | inl bad ↦
        let act : ltb risk 40 ≡ false = ground (arith, bad) in
        elim (Bool-cases (leb 60 risk)) [
          | inl high ↦ rw (act) (
              rw (mild) (
                rw (bad) (
                  rw (high) (
                    inl refl,
                    (refl, refl, lookup-insert_same node_id drain h.active_remediations),
                  ))))
          | inr low ↦ rw (act) (
              rw (mild) (
                rw (bad) (
                  rw (low) (
                    inr refl,
                    (refl, refl, lookup-insert_same node_id restart h.active_remediations),
                  ))))
        ]
    | inr fine ↦
        let rest : ltb risk 40 ≡ true = ground (arith, fine) in
        elim (Bool-cases (leb 20 risk)) [
          | inl warned ↦ rw (rest) (rw (mild) (rw (fine) (rw (warned) (refl, refl))))
          | inr well ↦ rw (rest) (rw (mild) (rw (fine) (rw (well) (refl, refl))))
        ]
  ]
]

-- A remediation does what the health check says of the node: a critical one is cordoned and a
-- degraded one drained or restarted, which is recorded in the history and as the node's active
-- remediation, and a healthy or warned one is skipped, with nothing recorded.
pub execute_remediation_treats :
    (t : Telemetry) (node_id : String) (h : AutoHealer)
    → Treated (health_status (risk_score t)) node_id h (execute_remediation t node_id h)
unfolding execute_remediation suggest_remediation
execute_remediation_treats t node_id h = suggested-Treated (risk_score t) node_id h

rank-suggested :
    (risk : ℕ) (node_id : String) (h : AutoHealer)
    → rank (carry_out node_id (suggested risk node_id) h).0.action
      ≡ (if ltb risk 40 then 0 else (if leb 80 risk then 3 else (if leb 60 risk then 2 else 1)))
unfolding carry_out
rank-suggested risk node_id h = ground arith

rank-suggested_le :
    (x y : ℕ) (node_id : String) (h : AutoHealer)
    → x ≤ y
    → rank (carry_out node_id (suggested x node_id) h).0.action
      ≤ rank (carry_out node_id (suggested y node_id) h).0.action
rank-suggested_le x y node_id h less =
    ground (arith, rank-suggested x node_id h, rank-suggested y node_id h)

-- A node whose readings are nowhere lower is never treated more mildly: the actions are ranked from
-- none over restart and drain to cordon.
pub never_milder :
    (t u : Telemetry) (node_id : String) (h : AutoHealer)
    → Worse t u
    → rank (execute_remediation t node_id h).0.action
      ≤ rank (execute_remediation u node_id h).0.action
unfolding execute_remediation suggest_remediation
never_milder t u node_id h worse =
    rank-suggested_le (risk_score t) (risk_score u) node_id h (risk_score_le t u worse)
