-- ===== src/Governance/Registry/Laws.antt =====
-- The registry's pointers: champions and challengers name stored versions of their own class, and
-- a promotion swaps them.
use gpuopt.Base.{
  ℕ, Bool, true, false, ◌≡◌, refl, sym, ◌∙◌, subst, Option, none, some, ◌==◌, string_eq,
  if◌then◌else◌, Option-cases, inl, inr, beq_refl,
}
use gpuopt.Base.Dict.{
  Dict, lookup, insert, erase, lookup-insert, lookup-erase, Rows, Rows-insert, Rows-erase,
}
use gpuopt.Governance.Models.{
  Uuid, ModelActionClass, action_class_eq, ModelStatus, draft, challenger, champion, deprecated,
  rejected, archived, ModelVersion,
}
use gpuopt.Governance.Registry.{
  ModelRegistry, register, get, points_to, assign, update_status, delete, get_champion,
  get_challenger, retire, promote_challenger,
}

-- The version stands in the dict and is of the class.
abbrev pub Names : Dict Uuid ModelVersion → ModelActionClass → Uuid → Type 0
Names d c vid = (v : ModelVersion) × (lookup vid d ≡ some v) × (v.action_class ≡ c)

pub record IsSound (r : ModelRegistry) : Type 0 where
  pub keyed : Rows (λ (k : Uuid) (v : ModelVersion). v.id ≡ k) r.versions
  pub champions : Rows (Names r.versions) r.champions
  pub challengers : Rows (Names r.versions) r.challengers

-- A stored version is changed in place, its class and id kept: every name still holds.
names_if :
    (b : Bool) (o : Option ModelVersion) (v v' w : ModelVersion) (c : ModelActionClass)
    → (b ≡ true → o ≡ some v)
    → v'.action_class ≡ v.action_class
    → o ≡ some w
    → w.action_class ≡ c
    → (x : ModelVersion) × ((if b then some v' else o) ≡ some x) × (x.action_class ≡ c)
names_if true o v v' w c hit same found class = let e = hit refl in (v', refl, cc)
names_if false o v v' w c hit same found class = (w, found, class)

Names-insert :
    (vid : Uuid) (v v' : ModelVersion) (d : Dict Uuid ModelVersion) (m : Dict ModelActionClass Uuid)
    → lookup vid d ≡ some v
    → v'.action_class ≡ v.action_class
    → Rows (Names d) m
    → Rows (Names (insert vid v' d)) m
Names-insert vid v v' d m stored same rows c k h =
    let (w, found, class) = rows c k h in
    let (x, e, kept) =
      names_if (vid == k) (lookup k d) v v' w c
        (λ b.
          let same_id = (string_eq.beq_iff vid k).0 b in
          subst (λ z. lookup z d ≡ some v) same_id stored)
        same found class in
    (x, lookup-insert vid k v' d ∙ e, kept)

pub update_status-IsSound :
    (vid : Uuid) (status : ModelStatus) (now : ℕ) (r : ModelRegistry)
    → IsSound r
    → IsSound (update_status vid status now r).1
unfolding update_status assign
update_status-IsSound vid status now r h = elim (Option-cases (get vid r)) [
  | inl e ↦ rw (e, update_status) h
  | inr (v, e) ↦ rw (e, update_status) (assigned status v e)
]
  where
    moved : ModelVersion → ModelStatus → ModelRegistry
    moved v s = record r {
      versions = insert vid (record v { status = s; updated_at = now }) r.versions;
    }

    base : (v : ModelVersion) (s : ModelStatus) → get vid r ≡ some v → IsSound (moved v s)
    base v s e = record {
      keyed = Rows-insert (λ k w. w.id ≡ k) vid _ r.versions (h.keyed vid v e) h.keyed;
      champions = Names-insert vid v _ r.versions r.champions e refl h.champions;
      challengers = Names-insert vid v _ r.versions r.challengers e refl h.challengers;
    }

    here : (v : ModelVersion) (s : ModelStatus) → Names (moved v s).versions v.action_class vid
    here v s = (
      record v { status = s; updated_at = now },
      rw (lookup-insert vid vid (record v { status = s; updated_at = now }) r.versions)
          (rw (beq_refl vid)),
      refl,
    )

    cleared :
        (b : Bool) (v : ModelVersion) (s : ModelStatus)
        → get vid r ≡ some v
        → Rows
            (Names (moved v s).versions)
            (if b then erase v.action_class r.challengers else r.challengers)
    cleared true v s e =
        Rows-erase (Names (moved v s).versions) v.action_class r.challengers
          (base v s e).challengers
    cleared false v s e = (base v s e).challengers

    assigned :
        (s : ModelStatus) (v : ModelVersion)
        → get vid r ≡ some v
        → IsSound (assign s v.action_class vid (moved v s))
    assigned draft v e = base v draft e
    assigned challenger v e = record {
      keyed = (base v challenger e).keyed;
      champions = (base v challenger e).champions;
      challengers =
          Rows-insert (Names (moved v challenger).versions) v.action_class vid r.challengers
            (here v challenger) (base v challenger e).challengers;
    }
    assigned champion v e = record {
      keyed = (base v champion e).keyed;
      champions =
          Rows-insert (Names (moved v champion).versions) v.action_class vid r.champions
            (here v champion) (base v champion e).champions;
      challengers = cleared (points_to vid (lookup v.action_class r.challengers)) v champion e;
    }
    assigned deprecated v e = base v deprecated e
    assigned rejected v e = base v rejected e
    assigned archived v e = base v archived e

names_unless :
    (b : Bool) (o : Option ModelVersion) (w : ModelVersion) (c : ModelActionClass)
    → b ≡ false
    → o ≡ some w
    → w.action_class ≡ c
    → (x : ModelVersion) × ((if b then none else o) ≡ some x) × (x.action_class ≡ c)
names_unless true o w c off found class = absurd cc
names_unless false o w c off found class = (w, found, class)

-- With the version and its class's pointer gone, no pointer names the version.
Names-erase :
    (vid : Uuid) (v : ModelVersion) (d : Dict Uuid ModelVersion) (m : Dict ModelActionClass Uuid)
    → lookup vid d ≡ some v
    → Rows (Names d) m
    → Rows (Names (erase vid d)) (erase v.action_class m)
Names-erase vid v d m stored rows c k h =
    let (w, found, class) =
      rows c k (same_pointer (v.action_class == c) (sym (lookup-erase v.action_class c m) ∙ h)) in
    let (x, e, kept) =
      names_unless (vid == k) (lookup k d) w c (other (vid == k) refl w found class) found class in
    (x, lookup-erase vid k d ∙ e, kept)
  where
    same_pointer : (b : Bool) → (if b then none else lookup c m) ≡ some k → lookup c m ≡ some k
    same_pointer true f = cc
    same_pointer false f = f

    own_class : (b : Bool) → b ≡ true → (if b then none else lookup c m) ≡ some k → ⊥
    own_class true e f = cc
    own_class false e f = cc

    other :
        (b : Bool)
        → (vid == k) ≡ b
        → (w : ModelVersion) → lookup k d ≡ some w
        → w.action_class ≡ c
        → b ≡ false
    other false e w found class = refl
    other true e w found class =
        let same_id = (string_eq.beq_iff vid k).0 e in
        let same_version : lookup k d ≡ some v = subst (λ z. lookup z d ≡ some v) same_id stored in
        let same_class : v.action_class ≡ c = cc in
        absurd (
          own_class (v.action_class == c) ((action_class_eq.beq_iff v.action_class c).1 same_class)
            (sym (lookup-erase v.action_class c m) ∙ h))

pub delete-IsSound : (vid : Uuid) (r : ModelRegistry) → IsSound r → IsSound (delete vid r).1
unfolding delete
delete-IsSound vid r h = elim (Option-cases (get vid r)) [
  | inl e ↦ rw (e, delete) h
  | inr (v, e) ↦
      rw (e, delete)
        (record {
          keyed = Rows-erase (λ k w. w.id ≡ k) vid r.versions h.keyed;
          champions = Names-erase vid v r.versions r.champions e h.champions;
          challengers = Names-erase vid v r.versions r.challengers e h.challengers;
        })
]

-- A version with a new id.
pub register-IsSound :
    (v : ModelVersion) (r : ModelRegistry)
    → lookup v.id r.versions ≡ none
    → IsSound r
    → IsSound (register v r)
unfolding register
register-IsSound v r fresh h = record {
  keyed = Rows-insert (λ k w. w.id ≡ k) v.id v r.versions refl h.keyed;
  champions = λ c k e. still c k (h.champions c k e);
  challengers = λ c k e. still c k (h.challengers c k e);
}
  where
    elsewhere :
        (b : Bool) (k : Uuid) (w : ModelVersion)
        → (b ≡ true → v.id ≡ k)
        → lookup k r.versions ≡ some w
        → (if b then some v else lookup k r.versions) ≡ some w
    elsewhere false k w same e = e
    elsewhere true k w same e =
        let f : lookup k r.versions ≡ none =
          subst (λ z. lookup z r.versions ≡ none) (same refl) fresh in
        absurd cc

    still :
        (c : ModelActionClass) (k : Uuid)
        → Names r.versions c k
        → Names (insert v.id v r.versions) c k
    still c k (w, e, class) = (
      w,
      lookup-insert v.id k v r.versions
          ∙ elsewhere (v.id == k) k w ((string_eq.beq_iff v.id k).0) e,
      class,
    )

retire-IsSound :
    (o : Option ModelVersion) (now : ℕ) (r : ModelRegistry) → IsSound r → IsSound (retire o now r)
unfolding retire
retire-IsSound none now r h = h
retire-IsSound (some v) now r h = update_status-IsSound v.id deprecated now r h

pub promote_challenger-IsSound :
    (c : ModelActionClass) (now : ℕ) (r : ModelRegistry)
    → IsSound r
    → IsSound (promote_challenger c now r).1
unfolding promote_challenger
promote_challenger-IsSound c now r h = elim (Option-cases (get_challenger c r)) [
  | inl e ↦ rw (e, promote_challenger) h
  | inr (v, e) ↦
      rw (e, promote_challenger)
        (update_status-IsSound v.id champion now _ (retire-IsSound (get_champion c r) now r h))
]
