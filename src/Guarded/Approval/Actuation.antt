-- ===== src/Guarded/Approval/Actuation.antt =====
-- The gate on an actuation: what `check_actuation_approved` has seen when it opens.
use mathlib.Core.List.{Memᴰ}
use gpuopt.Base.{
  Bool, true, false, ◌≡◌, refl, List, [], ◌∷◌, all, not, ◌||◌, subst, filter, arith, ◌==◌,
  string_eq, eq_iff, leb, if◌then◌else◌, sym,
}
use gpuopt.Base.Dict.{values}
use gpuopt.Guarded.Approval.{
  Uuid, approved, is_approved, ApprovalRecord, Approvals, latest_from, list_approvals_for_actuation,
  check_actuation_approved, ApprovalStatus, pending, rejected, cancelled,
}

abbrev no_newer : ApprovalRecord → ApprovalRecord → Bool
no_newer best q = leb q.created_at best.created_at

-- `best` is among the records, and none is newer.
record IsLatest (best : ApprovalRecord) (rs : List ApprovalRecord) : Type 0 where
  member : Memᴰ best rs
  newest : all (no_newer best) rs ≡ true

IsLatest-choice :
    (best r : ApprovalRecord) (rs : List ApprovalRecord) (b : Bool)
    → leb r.created_at best.created_at ≡ b
    → IsLatest (latest_from (if b then best else r) rs) ((if b then best else r) ∷ rs)
    → IsLatest (latest_from (if b then best else r) rs) (best ∷ r ∷ rs)
IsLatest-choice best r rs true e l = record {
  member = skip l.member;
  newest = ground (arith, l.newest);
}
  where
    skip : {x : ApprovalRecord} → Memᴰ x (best ∷ rs) → Memᴰ x (best ∷ r ∷ rs)
    skip (Memᴰ.head h) = Memᴰ.head h
    skip (Memᴰ.tail m) = Memᴰ.tail (Memᴰ.tail m)
IsLatest-choice best r rs false e l = record {
  member = Memᴰ.tail l.member;
  newest = ground (arith, l.newest);
}

latest_from-IsLatest :
    (rs : List ApprovalRecord) (best : ApprovalRecord) → IsLatest (latest_from best rs) (best ∷ rs)
unfolding latest_from
latest_from-IsLatest [] best = record { member = Memᴰ.head refl; newest = ground arith }
latest_from-IsLatest (r ∷ rs) best =
    IsLatest-choice best r rs (leb r.created_at best.created_at) refl
      (latest_from-IsLatest rs (if leb r.created_at best.created_at then best else r))

module _ (p : ApprovalRecord → Bool) where
  mem_if :
      (b : Bool) {x : ApprovalRecord} (y : ApprovalRecord) (kept xs : List ApprovalRecord)
      → p y ≡ b
      → (Memᴰ x kept → Memᴰ x xs × (p x ≡ true))
      → Memᴰ x (if b then y ∷ kept else kept)
      → Memᴰ x (y ∷ xs) × (p x ≡ true)
  mem_if true y kept xs e later (Memᴰ.head h) = (Memᴰ.head h, subst (λ z. p z ≡ true) (sym h) e)
  mem_if true y kept xs e later (Memᴰ.tail m) = let (i, px) = later m in (Memᴰ.tail i, px)
  mem_if false y kept xs e later m = let (i, px) = later m in (Memᴰ.tail i, px)

  mem-filter_parts :
      (xs : List ApprovalRecord) {x : ApprovalRecord}
      → Memᴰ x (filter p xs)
      → Memᴰ x xs × (p x ≡ true)
  mem-filter_parts [] m = elim m [ ]
  mem-filter_parts (y ∷ xs) m = mem_if (p y) y (filter p xs) xs refl (λ k. mem-filter_parts xs k) m

  all-filter :
      (q : ApprovalRecord → Bool) (xs : List ApprovalRecord)
      → all q (filter p xs) ≡ true
      → all (λ x. not (p x) || q x) xs ≡ true
  all-filter q [] h = refl
  all-filter q (y ∷ xs) h = ground (arith, all-filter q xs)

abbrev is_for : Uuid → ApprovalRecord → Bool
is_for actuation r = r.actuation_id == actuation

-- What the gate has seen when it lets an actuation pass.
pub record Evidence (actuation : Uuid) (db : Approvals) : Type 0 where
  pub record_seen : ApprovalRecord
  pub stored : Memᴰ record_seen (values db)
  pub for_actuation : record_seen.actuation_id ≡ actuation
  pub is_approval : record_seen.status ≡ approved
  pub newest : all (λ q. not (is_for actuation q) || no_newer record_seen q) (values db) ≡ true

approved_status : (st : ApprovalStatus) → is_approved st ≡ true → st ≡ approved
approved_status approved h = refl
approved_status pending h = cc
approved_status rejected h = cc
approved_status cancelled h = cc

Evidence-of :
    (actuation : Uuid) (db : Approvals) (r : ApprovalRecord) (rest : List ApprovalRecord)
    → list_approvals_for_actuation actuation db ≡ r ∷ rest
    → is_approved (latest_from r rest).status ≡ true
    → Evidence actuation db
unfolding list_approvals_for_actuation
Evidence-of actuation db r rest e h =
    let l = latest_from-IsLatest rest r in
    let (stored, named) =
      mem-filter_parts (is_for actuation) (values db)
        (subst (λ l'. Memᴰ (latest_from r rest) l') (sym e) l.member) in
    record {
      record_seen = latest_from r rest;
      stored = stored;
      for_actuation = (eq_iff (latest_from r rest).actuation_id actuation).0 named;
      is_approval = approved_status (latest_from r rest).status h;
      newest =
          all-filter (is_for actuation) (no_newer (latest_from r rest)) (values db)
            (subst (λ l'. all (no_newer (latest_from r rest)) l' ≡ true) (sym e) l.newest);
    }

-- An actuation passes the gate only if the table holds an approved record for it, and no record
-- for it is newer than that one.
pub check_actuation_approved_sound :
    (actuation : Uuid) (db : Approvals)
    → check_actuation_approved actuation db ≡ true
    → Evidence actuation db
unfolding check_actuation_approved
check_actuation_approved_sound actuation db h =
    go (list_approvals_for_actuation actuation db) refl h
  where
    go :
        (l : List ApprovalRecord)
        → list_approvals_for_actuation actuation db ≡ l
        → (elim l [ [] ↦ false | r ∷ rest ↦ is_approved (latest_from r rest).status ]) ≡ true
        → Evidence actuation db
    go [] e h = cc
    go (r ∷ rest) e h = Evidence-of actuation db r rest e h
