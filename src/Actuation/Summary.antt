-- ===== src/Actuation/Summary.antt =====
-- The counts of a summary.
use gpuopt.Base.{
  ℕ, suc, ap, ◌+◌, ◌≤◌, String, string_eq, List, [], ◌∷◌, ◌≡◌, refl, length, arith, ◌∙◌, ◌==◌,
  if◌then◌else◌, Option-cases, inl, inr, subst, length-take_le,
}
use gpuopt.Base.Dict.{lookup}
use gpuopt.Actuation.{
  ActuationStatus, pending, in_progress, completed, failed, rolled_back, status_eq, status_discrete,
  ActuationRecord, Repository, list_actuations,
}
use gpuopt.Actuation.Service.{
  ActuationSummary, raised, returned, cluster_not_found, summarize, summary_of, count_status,
}

-- One more record of a status adds one to one of the five counts.
one_more :
    (s : ActuationStatus) (a b c d e : ℕ)
    → (if s == completed then suc a else a)
        + (if s == failed then suc b else b)
        + (if s == in_progress then suc c else c)
        + (if s == rolled_back then suc d else d)
        + (if s == pending then suc e else e)
      ≡ suc (a + b + c + d + e)
unfolding status_discrete
one_more pending a b c d e = omega arith
one_more in_progress a b c d e = omega arith
one_more completed a b c d e = omega arith
one_more failed a b c d e = omega arith
one_more rolled_back a b c d e = omega arith

statuses :
    (xs : List ActuationRecord)
    → count_status completed xs
        + count_status failed xs
        + count_status in_progress xs
        + count_status rolled_back xs
        + count_status pending xs
      ≡ length xs
unfolding count_status
statuses [] = refl
statuses (a ∷ xs) =
    one_more a.status (count_status completed xs) (count_status failed xs)
      (count_status in_progress xs) (count_status rolled_back xs) (count_status pending xs)
    ∙ ap suc (statuses xs)

-- A summary that is returned counts each listed record under exactly one status, and it counts at
-- most 1000 of them, however many are stored.
pub summarize_partitions :
    (cluster_id : String) (r : Repository) (s : ActuationSummary)
    → summarize cluster_id r ≡ returned s
    → (s.successful + s.failed + s.in_progress + s.rolled_back + s.pending ≡ s.total_actuations)
      × (s.total_actuations ≡ length (list_actuations cluster_id 1000 r))
      × (s.total_actuations ≤ 1000)
unfolding summarize summary_of list_actuations
summarize_partitions cluster_id r s h = elim (Option-cases (lookup cluster_id r.clusters)) [
  | inl missing ↦
      let is : summarize cluster_id r ≡ raised cluster_not_found = rw (missing, summarize) refl in
      absurd cc
  | inr (cluster, found) ↦
      let listed = list_actuations cluster_id 1000 r in
      let is : summarize cluster_id r ≡ returned (summary_of cluster_id cluster listed) =
        rw (found, summarize) refl in
      let same : summary_of cluster_id cluster listed ≡ s = cc in
      subst
        (λ (z : ActuationSummary).
          (z.successful + z.failed + z.in_progress + z.rolled_back + z.pending ≡ z.total_actuations)
          × (z.total_actuations ≡ length listed)
          × (z.total_actuations ≤ 1000))
        same (statuses listed, refl, length-take_le 1000 _)
]
