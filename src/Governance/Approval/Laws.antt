-- ===== src/Governance/Approval/Laws.antt =====
-- Approval, rejection and recertification of model versions, and deletion.
use gpuopt.Base.{
  ℕ, ◌+◌, ◌*◌, ◌<◌, String, Bool, true, false, ◌≡◌, ◌≢◌, refl, ap, ◌∙◌, Option, none, some, [], ◌∷◌,
  ◌==◌, string_eq, if◌then◌else◌, ltb, arith, Bool-cases, Option-cases, inl, inr, beq_refl,
}
use gpuopt.Base.Dict.{lookup, lookup-insert_same, lookup-insert_other, lookup-erase_same}
use gpuopt.Governance.Models.{
  Uuid, ModelActionClass, action_class_eq, ModelStatus, ApprovalStatus, pending, approved, expired,
  ModelVersion, ApprovalRequest,
}
use gpuopt.Governance.Registry.{
  ModelRegistry, get, update_status, assign, delete, version_at, get_champion, get_challenger,
}
use gpuopt.Governance.Registry.Laws.{IsSound}
use gpuopt.Governance.Registry.Promotion.{with_status, get-update_status, champion_at}
use gpuopt.Governance.Approval.{
  Requests, day, or_days, approve_request, certify, certify_version, approve, reject, is_approved,
  recertify_until, recertify_one, recertify,
}

-- The approval of a stored request, for a number of days or, without one, the request's own: the
-- request is approved and the version certified until the same moment, that many days from now,
-- and no other version changes.
pub approve_certifies :
    (request_id reviewer notes : String) (days : Option ℕ) (now : ℕ) (r : ModelRegistry)
    (requests : Requests) (req : ApprovalRequest) (v : ModelVersion)
    → lookup request_id requests ≡ some req
    → get req.model_version_id r ≡ some v
    → let out = approve request_id reviewer notes days now (r, requests) in
      let until = now + or_days days req.certification_period_days * day in
      (lookup request_id out.1.1
        ≡ some (record req {
          status = approved;
          reviewed_by = some reviewer;
          reviewed_at = some now;
          review_notes = notes;
          certified_until = some until;
        }))
      × (get req.model_version_id out.1.0
          ≡ some (record v {
            approved_by = some reviewer;
            approved_at = some now;
            approval_note = notes;
            certification_days = or_days days req.certification_period_days;
            certified_until = some until;
          }))
      × ((k : Uuid) → k ≢ req.model_version_id → get k out.1.0 ≡ get k r)
unfolding approve certify_version
approve_certifies request_id reviewer notes days now r requests req v e f =
    let d = or_days days req.certification_period_days in
    rw (e, approve)
      (rw (f, certify_version)
        (
          lookup-insert_same request_id (approve_request reviewer notes d now req) requests,
          lookup-insert_same req.model_version_id (certify reviewer notes d now v) r.versions,
          (λ k other.
              lookup-insert_other req.model_version_id k (certify reviewer notes d now v) r.versions
                other),
        ))

still_named :
    (vid : Uuid) (c : ModelActionClass) (now : ℕ) (r : ModelRegistry)
    → lookup c (update_status vid ModelStatus.rejected now r).1.champions ≡ lookup c r.champions
unfolding update_status assign
still_named vid c now r = elim (Option-cases (get vid r)) [
  | inl e ↦ rw (e, update_status) refl
  | inr (v, e) ↦ rw (e, update_status) refl
]

-- In a sound registry the rejection of the request of a class's champion leaves the version the
-- class's champion, with the status rejected.
pub rejected_still_champion :
    (request_id reviewer notes : String) (now : ℕ) (r : ModelRegistry) (requests : Requests)
    (req : ApprovalRequest) (c : ModelActionClass) (v : ModelVersion)
    → IsSound r
    → lookup request_id requests ≡ some req
    → get_champion c r ≡ some v
    → req.model_version_id ≡ v.id
    → get_champion c (reject request_id reviewer notes now (r, requests)).1.0
      ≡ some (with_status ModelStatus.rejected now v)
unfolding reject get_champion version_at
rejected_still_champion request_id reviewer notes now r requests req c v h e f own =
    let (at, stored, class) = champion_at c r v h f in
    rw (e, reject)
      (rw (own) (
        rw (still_named v.id c now r) (
          rw (at) (
            rw (get-update_status v.id v.id ModelStatus.rejected now r v stored)
              (rw (beq_refl v.id) refl)))))

-- Deleting a stored version, champion or not, leaves its class without a champion and a
-- challenger, and the version is gone.
pub delete_empties_class :
    (vid : Uuid) (r : ModelRegistry) (v : ModelVersion)
    → get vid r ≡ some v
    → (get_champion v.action_class (delete vid r).1 ≡ none)
      × (get_challenger v.action_class (delete vid r).1 ≡ none)
      × (get vid (delete vid r).1 ≡ none)
unfolding delete get_champion get_challenger version_at
delete_empties_class vid r v e =
    let c = v.action_class in
    rw (e, delete)
      (
        (rw (lookup-erase_same c r.champions) refl),
        (rw (lookup-erase_same c r.challengers) refl),
        lookup-erase_same vid r.versions,
      )

-- An approval of this request has run out.
abbrev HasLapsed : ℕ → ApprovalRequest → Type 0
HasLapsed now req = (t : ℕ) × (req.status ≡ approved) × (req.certified_until ≡ some t) × (t < now)

recertify_one-lapsed :
    (now reminder : ℕ) (req : ApprovalRequest)
    → HasLapsed now req
    → recertify_one now reminder req ≡ (record req { status = expired }, true)
unfolding recertify_one
recertify_one-lapsed now reminder req (t, e, f, late) =
    let b : ltb t now ≡ true = ground arith in rw (e, recertify_one) (rw (f) (rw (b) refl))

is_approved_status : (s : ApprovalStatus) → is_approved s ≡ true → s ≡ approved
is_approved_status pending h = cc
is_approved_status approved h = refl
is_approved_status ApprovalStatus.rejected h = cc
is_approved_status expired h = cc

recertify_one-kept :
    (now reminder : ℕ) (req : ApprovalRequest)
    → (HasLapsed now req → ⊥)
    → (recertify_one now reminder req).0 ≡ req
unfolding recertify_one
recertify_one-kept now reminder req h = elim (Bool-cases (is_approved req.status)) [
  | inr open_request ↦ rw (open_request, recertify_one) refl
  | inl granted ↦
      rw (granted, recertify_one)
        (elim (Option-cases req.certified_until) [
          | inl e ↦ rw (e, recertify_until) refl
          | inr (t, e) ↦ elim (Bool-cases (ltb t now)) [
            | inl late ↦ absurd (h (t, is_approved_status req.status granted, e, ground arith))
            | inr valid ↦ rw (e, recertify_until) (rw (valid) refl)
          ]
        ])
]

lookup-recertify :
    (now reminder : ℕ) (k : Uuid) (requests : Requests) (req : ApprovalRequest)
    → lookup k requests ≡ some req
    → lookup k (recertify now reminder requests).1 ≡ some (recertify_one now reminder req).0
unfolding recertify
lookup-recertify now reminder k [] req e = absurd cc
lookup-recertify now reminder k ((j, first) ∷ rest) req e = elim (Bool-cases (j == k)) [
  | inl hit ↦
      let same : first ≡ req = at_hit (j == k) hit e in
      rw (hit) (ap (λ z. some (recertify_one now reminder z).0) same)
  | inr miss ↦ rw (miss) (lookup-recertify now reminder k rest req (at_miss (j == k) miss e))
]
  where
    at_hit :
        (b : Bool) → b ≡ true → (if b then some first else lookup k rest) ≡ some req → first ≡ req
    at_hit true h f = cc
    at_hit false h f = absurd cc

    at_miss :
        (b : Bool)
        → b ≡ false
        → (if b then some first else lookup k rest) ≡ some req
        → lookup k rest ≡ some req
    at_miss true h f = absurd cc
    at_miss false h f = f

-- A recertification run sets exactly the approved requests whose certificate has run out to
-- expired, and leaves every other request as it was.
pub recertify_expires :
    (now reminder : ℕ) (requests : Requests) (k : Uuid) (req : ApprovalRequest)
    → lookup k requests ≡ some req
    → (HasLapsed now req
        → lookup k (recertify now reminder requests).1 ≡ some (record req { status = expired }))
      × ((HasLapsed now req → ⊥) → lookup k (recertify now reminder requests).1 ≡ some req)
recertify_expires now reminder requests k req e =
    let found = lookup-recertify now reminder k requests req e in
    (
      (λ late. found ∙ ap (λ z. some z.0) (recertify_one-lapsed now reminder req late)),
      (λ valid. found ∙ ap (λ z. some z) (recertify_one-kept now reminder req valid)),
    )
