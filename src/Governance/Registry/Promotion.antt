-- ===== src/Governance/Registry/Promotion.antt =====
-- What a promotion does to the champion and the challenger of its class.
use gpuopt.Base.{
  ℕ, Bool, true, false, ◌≡◌, ◌≢◌, refl, sym, ap, ◌∙◌, subst, Option, none, some, ◌==◌, string_eq,
  if◌then◌else◌, Option-cases, inl, inr, beq_refl,
}
use gpuopt.Base.Dict.{lookup, insert, lookup-insert, lookup-erase}
use gpuopt.Governance.Models.{
  Uuid, ModelActionClass, action_class_eq, ModelStatus, draft, challenger, champion, deprecated,
  rejected, archived, ModelVersion,
}
use gpuopt.Governance.Registry.{
  ModelRegistry, get, assign, update_status, version_at, get_champion, get_challenger, retire,
  promote_challenger,
}
use gpuopt.Governance.Registry.Laws.{IsSound}

abbrev pub with_status : ModelStatus → ℕ → ModelVersion → ModelVersion
with_status s now v = record v { status = s; updated_at = now }

assign-versions :
    (s : ModelStatus) (c : ModelActionClass) (vid : Uuid) (r : ModelRegistry)
    → (assign s c vid r).versions ≡ r.versions
unfolding assign
assign-versions draft c vid r = refl
assign-versions challenger c vid r = refl
assign-versions champion c vid r = refl
assign-versions deprecated c vid r = refl
assign-versions rejected c vid r = refl
assign-versions archived c vid r = refl

pub get-update_status :
    (vid k : Uuid) (s : ModelStatus) (now : ℕ) (r : ModelRegistry) (v : ModelVersion)
    → get vid r ≡ some v
    → get k (update_status vid s now r).1
      ≡ (if vid == k then some (with_status s now v) else get k r)
unfolding update_status
get-update_status vid k s now r v e =
    rw (e, update_status)
      (rw
        (assign-versions s v.action_class vid
          (record r { versions = insert vid (with_status s now v) r.versions }))
        (lookup-insert vid k (with_status s now v) r.versions))

-- The version that a pointer leads to, and where it stands.
version_at_inv :
    (o : Option Uuid) (r : ModelRegistry) (v : ModelVersion)
    → version_at o r ≡ some v
    → (vid : Uuid) × (o ≡ some vid) × (get vid r ≡ some v)
unfolding version_at
version_at_inv none r v e = absurd cc
version_at_inv (some vid) r v e = (vid, refl, e)

pub challenger_at :
    (c : ModelActionClass) (r : ModelRegistry) (v : ModelVersion)
    → IsSound r
    → get_challenger c r ≡ some v
    → (lookup c r.challengers ≡ some v.id) × (get v.id r ≡ some v) × (v.action_class ≡ c)
unfolding get_challenger
challenger_at c r v h e =
    let (vid, at, found) = version_at_inv (lookup c r.challengers) r v e in
    let own : v.id ≡ vid = h.keyed vid v found in
    let (w, found', class) = h.challengers c vid at in
    (
      subst (λ z. lookup c r.challengers ≡ some z) (sym own) at,
      subst (λ z. get z r ≡ some v) (sym own) found,
      (let q : w ≡ v = cc in subst (λ z. z.action_class ≡ c) q class),
    )

pub champion_at :
    (c : ModelActionClass) (r : ModelRegistry) (v : ModelVersion)
    → IsSound r
    → get_champion c r ≡ some v
    → (lookup c r.champions ≡ some v.id) × (get v.id r ≡ some v) × (v.action_class ≡ c)
unfolding get_champion
champion_at c r v h e =
    let (vid, at, found) = version_at_inv (lookup c r.champions) r v e in
    let own : v.id ≡ vid = h.keyed vid v found in
    let (w, found', class) = h.champions c vid at in
    (
      subst (λ z. lookup c r.champions ≡ some z) (sym own) at,
      subst (λ z. get z r ≡ some v) (sym own) found,
      (let q : w ≡ v = cc in subst (λ z. z.action_class ≡ c) q class),
    )

-- After `update_status` to champion, the class has this champion, and it is no challenger.
crowned :
    (now : ℕ) (r : ModelRegistry) (v : ModelVersion) (vid : Uuid)
    → get vid r ≡ some v
    → lookup v.action_class r.challengers ≡ some vid
    → ((update_status vid champion now r).0 ≡ some (with_status champion now v))
      × (get_champion v.action_class (update_status vid champion now r).1
          ≡ some (with_status champion now v))
      × (get_challenger v.action_class (update_status vid champion now r).1 ≡ none)
unfolding update_status assign get_champion get_challenger version_at
crowned now r v vid e chal =
    let c = v.action_class in
    rw (e, update_status)
      (
        refl,
        (rw (lookup-insert c c vid r.champions) (
            rw (beq_refl c) (
              rw (lookup-insert vid vid (with_status champion now v) r.versions)
                (rw (beq_refl vid) refl)))),
        (rw (chal)
            (rw (beq_refl vid) (rw (lookup-erase c c r.challengers) (rw (beq_refl c) refl)))),
      )

-- The challenger before and after the champion's retirement: only its status may have changed.
IsLike : ModelVersion → ModelVersion → Type 0
IsLike v w = (now : ℕ) → with_status champion now w ≡ with_status champion now v

IsLike-if :
    (b : Bool) (v w : ModelVersion) (now : ℕ) (o : Option ModelVersion)
    → (b ≡ true → w ≡ v)
    → o ≡ some v
    → (x : ModelVersion) × ((if b then some (with_status deprecated now w) else o) ≡ some x)
      × IsLike v x
unfolding IsLike
IsLike-if true v w now o same e =
    (with_status deprecated now w, refl, (λ t. ap (λ x. with_status champion t x) (same refl)))
IsLike-if false v w now o same e = (v, e, (λ t. refl))

deprecated-challengers :
    (vid : Uuid) (now : ℕ) (r : ModelRegistry)
    → (update_status vid deprecated now r).1.challengers ≡ r.challengers
unfolding update_status assign
deprecated-challengers vid now r = elim (Option-cases (get vid r)) [
  | inl e ↦ rw (e, update_status) refl
  | inr (v, e) ↦ rw (e, update_status) refl
]

retired :
    (o : Option ModelVersion) (now : ℕ) (r : ModelRegistry) (v : ModelVersion)
    → ((w : ModelVersion) → o ≡ some w → get w.id r ≡ some w)
    → get v.id r ≡ some v
    → (x : ModelVersion) × (get v.id (retire o now r) ≡ some x)
      × IsLike v x
      × ((retire o now r).challengers ≡ r.challengers)
unfolding retire IsLike
retired none now r v at e = (v, e, (λ t. refl), refl)
retired (some w) now r v at e =
    let (x, f, like) =
      IsLike-if (w.id == v.id) v w now (get v.id r)
        (λ b. let same_id = (string_eq.beq_iff w.id v.id).0 b in same_version same_id (at w refl))
        e in
    (
      x,
      get-update_status w.id v.id deprecated now r w (at w refl) ∙ f,
      like,
      deprecated-challengers w.id now r,
    )
  where
    same_version : w.id ≡ v.id → get w.id r ≡ some w → w ≡ v
    same_version same_id f =
        let g : get w.id r ≡ some v = subst (λ z. get z r ≡ some v) (sym same_id) e in cc

promoted_from :
    (c : ModelActionClass) (now : ℕ) (r1 : ModelRegistry) (v x : ModelVersion)
    → get v.id r1 ≡ some x
    → IsLike v x
    → v.action_class ≡ c
    → lookup c r1.challengers ≡ some v.id
    → ((update_status v.id champion now r1).0 ≡ some (with_status champion now v))
      × (get_champion c (update_status v.id champion now r1).1 ≡ some (with_status champion now v))
      × (get_challenger c (update_status v.id champion now r1).1 ≡ none)
unfolding IsLike
promoted_from c now r1 v x e like class chal =
    let same_class : x.action_class ≡ c =
      ap (λ (y : ModelVersion). y.action_class) (like now) ∙ class in
    let (a, b, d) =
      crowned now r1 x v.id e
        (subst (λ z. lookup z r1.challengers ≡ some v.id) (sym same_class) chal) in
    let to_v : some (with_status champion now x) ≡ some (with_status champion now v) =
      ap (λ y. some y) (like now) in
    (
      a ∙ to_v,
      subst
            (λ z.
              get_champion z (update_status v.id champion now r1).1
              ≡ some (with_status champion now x))
            same_class b
          ∙ to_v,
      subst (λ z. get_challenger z (update_status v.id champion now r1).1 ≡ none) same_class d,
    )

-- In a sound registry, promoting the challenger of a class answers it with the status champion,
-- makes it the class's champion, leaves the class without a challenger, and deprecates whichever
-- other version was the champion before.
pub promote_challenger_effect :
    (c : ModelActionClass) (now : ℕ) (r : ModelRegistry) (v : ModelVersion)
    → IsSound r
    → get_challenger c r ≡ some v
    → ((promote_challenger c now r).0 ≡ some (with_status champion now v))
      × (get_champion c (promote_challenger c now r).1 ≡ some (with_status champion now v))
      × (get_challenger c (promote_challenger c now r).1 ≡ none)
      × ((w : ModelVersion)
          → get_champion c r ≡ some w
          → w.id ≢ v.id
          → get w.id (promote_challenger c now r).1 ≡ some (with_status deprecated now w))
unfolding promote_challenger
promote_challenger_effect c now r v h e =
    let (chal, found, class) = challenger_at c r v h e in
    let old = (λ (w : ModelVersion) (f : get_champion c r ≡ some w). (champion_at c r w h f).1) in
    let (x, at, like, same) = retired (get_champion c r) now r v old found in
    let (a, b, d) =
      promoted_from c now (retire (get_champion c r) now r) v x at like class
        (subst (λ z. lookup c z ≡ some v.id) (sym same) chal) in
    rw (e, promote_challenger) (a, b, d, (λ w f other. deposed w f other x at (old w f)))
  where
    missed :
        (w : ModelVersion) (b : Bool)
        → (v.id == w.id) ≡ b
        → w.id ≢ v.id
        → (o : Option ModelVersion) (x : ModelVersion) → o ≡ some (with_status deprecated now w)
        → (if b then some x else o) ≡ some (with_status deprecated now w)
    missed w true e other o x f = absurd (other (sym ((string_eq.beq_iff v.id w.id).0 e)))
    missed w false e other o x f = f

    deprecated_at :
        (w : ModelVersion)
        → get w.id r ≡ some w
        → (o : Option ModelVersion) → o ≡ some w
        → get w.id (retire o now r) ≡ some (with_status deprecated now w)
    deprecated_at w at none f = absurd cc
    deprecated_at w at (some u) f =
        let q : w ≡ u = cc in
        subst
          (λ z.
            get w.id (update_status z.id deprecated now r).1 ≡ some (with_status deprecated now w))
          q (get-update_status w.id w.id deprecated now r w at ∙ rw (beq_refl w.id) refl)

    deposed :
        (w : ModelVersion)
        → get_champion c r ≡ some w
        → w.id ≢ v.id
        → (x : ModelVersion) → get v.id (retire (get_champion c r) now r) ≡ some x
        → get w.id r ≡ some w
        → get w.id (update_status v.id champion now (retire (get_champion c r) now r)).1
          ≡ some (with_status deprecated now w)
    deposed w f other x at stored =
        get-update_status v.id w.id champion now (retire (get_champion c r) now r) x at
        ∙ missed w (v.id == w.id) refl other (get w.id (retire (get_champion c r) now r))
            (with_status champion now x) (deprecated_at w stored (get_champion c r) f)
