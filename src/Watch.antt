-- ===== src/Watch.antt =====
-- `ResourceCache` and `WatchManager` of src/gpuopt/watch_stream.py. Texts that the code joins and
-- cuts are lists of code points; the resources' data is a parameter. The locks make each operation
-- one step. A callback is known by its name.
pub mod Sorting
pub mod Cache
pub mod Changes
mod Tests
use gpuopt.Base.{
  ℕ, suc, ◌+◌, Bool, true, false, ◌&&◌, Option, none, some, List, [], ◌∷◌, ◌++◌, map, drop, last,
  length, filter, ◌==◌, nat_eq, codes_eq, string_eq, String, if◌then◌else◌, ltb, leb, is_none,
  is_some,
}
use gpuopt.Base.Dict.{Dict, lookup, insert, erase, has_key}

abbrev pub Text : Type 0
Text = List ℕ

pub data EventType : Type 0 where
  initial updated deleted : EventType

pub record WatchEvent (D : Type 0) : Type 0 where
  pub event_type : EventType
  pub resource_type : Text
  pub resource_id : Text
  pub resource_version : ℕ
  -- `{}` for a deletion
  pub data_of : Option D

pub record ResourceCache (D : Type 0) : Type 0 where
  pub cache : Dict Text D
  pub versions : Dict Text (List (ℕ × D))
  pub max_versions : ℕ
  pub current_version : ℕ

abbrev pub colon : ℕ
colon = 58

-- `f"{resource_type}:"` and `f"{resource_type}:{resource_id}"`
abbrev pub prefix : Text → Text
prefix rtype = rtype ++ (colon ∷ [])

abbrev pub key_of : Text → Text → Text
key_of rtype rid = prefix rtype ++ rid

-- `key.startswith(prefix)`
unfoldable pub starts_with : Text → Text → Bool
starts_with [] key = true
starts_with (c ∷ p) [] = false
starts_with (c ∷ p) (d ∷ key) = c == d && starts_with p key

module _ {D : Type 0} where
  -- `sorted(events, key=lambda e: e.resource_version)`, which is stable.
  unfoldable pub insert_event : WatchEvent D → List (WatchEvent D) → List (WatchEvent D)
  insert_event e [] = e ∷ []
  insert_event e (f ∷ es) =
      let rest = insert_event e es in
      if leb e.resource_version f.resource_version then e ∷ f ∷ es else f ∷ rest

  unfoldable pub sort_events : List (WatchEvent D) → List (WatchEvent D)
  unfolding insert_event
  sort_events [] = []
  sort_events (e ∷ es) = insert_event e (sort_events es)

  abbrev pub new_cache : ℕ → ResourceCache D
  new_cache n = record { cache = []; versions = []; max_versions = n; current_version = 0 }

  abbrev pub or_empty : Option (List (ℕ × D)) → List (ℕ × D)
  or_empty none = []
  or_empty (some h) = h

  -- `self._versions.get(key, [])`
  abbrev pub history : Text → ResourceCache D → List (ℕ × D)
  history key c = or_empty (lookup key c.versions)

  -- The cut `h[-max:]` of a history that is longer than the maximum.
  abbrev pub cut : ℕ → List (ℕ × D) → List (ℕ × D)
  cut limit h = if ltb limit (length h) then last limit h else h

  unfoldable pub set : Text → Text → D → ResourceCache D → WatchEvent D × ResourceCache D
  set rtype rid x c =
      let v = c.current_version + 1 in
      let key = key_of rtype rid in
      (
        record {
          event_type = updated;
          resource_type = rtype;
          resource_id = rid;
          resource_version = v;
          data_of = some x;
        },
        record c {
          cache = insert key x c.cache;
          versions = insert key (cut c.max_versions (history key c ++ ((v, x) ∷ []))) c.versions;
          current_version = v;
        },
      )

  unfoldable pub delete : Text → Text → ResourceCache D → Option (WatchEvent D) × ResourceCache D
  delete rtype rid c =
      let v = c.current_version + 1 in
      if has_key (key_of rtype rid) c.cache
      then (
        some (record {
          event_type = deleted;
          resource_type = rtype;
          resource_id = rid;
          resource_version = v;
          data_of = none;
        }),
        record c { cache = erase (key_of rtype rid) c.cache; current_version = v },
      )
      else (none, c)

  unfoldable pub get : Text → Text → ResourceCache D → Option D
  get rtype rid c = lookup (key_of rtype rid) c.cache

  pub list_rows : Text → Dict Text D → List D
  list_rows p [] = []
  list_rows p ((k, x) ∷ rows) =
      let rest = list_rows p rows in if starts_with p k then x ∷ rest else rest

  unfoldable pub list : Text → ResourceCache D → List D
  unfolding list_rows
  list rtype c = list_rows (prefix rtype) c.cache

  unfoldable pub last_version : List (ℕ × D) → ℕ
  last_version [] = 0
  last_version ((v, x) ∷ []) = v
  last_version ((v, x) ∷ h ∷ hs) = last_version (h ∷ hs)

  unfoldable pub get_resource_version : Text → Text → ResourceCache D → ℕ
  unfolding last_version
  get_resource_version rtype rid c = last_version (history (key_of rtype rid) c)

  -- The events of one history.
  unfoldable pub events_of : Text → Text → ℕ → List (ℕ × D) → List (WatchEvent D)
  events_of rtype rid since [] = []
  events_of rtype rid since ((v, x) ∷ h) =
      let rest = events_of rtype rid since h in
      if ltb since v
      then record {
        event_type = updated;
        resource_type = rtype;
        resource_id = rid;
        resource_version = v;
        data_of = some x;
      }
        ∷ rest
      else rest

  unfoldable pub events_since : Text → ℕ → Dict Text (List (ℕ × D)) → List (WatchEvent D)
  unfolding events_of starts_with
  events_since rtype since [] = []
  events_since rtype since ((k, h) ∷ rows) =
      let rest = events_since rtype since rows in
      if starts_with (prefix rtype) k
      then events_of rtype (drop (length (prefix rtype)) k) since h ++ rest
      else rest

  unfoldable pub get_changes_since : Text → ℕ → ResourceCache D → List (WatchEvent D)
  unfolding events_since sort_events
  get_changes_since rtype since c = sort_events (events_since rtype since c.versions)

  abbrev pub size : ResourceCache D → ℕ
  size c = length c.cache

  abbrev pub clear : ResourceCache D → ResourceCache D
  clear c = record c { cache = []; versions = []; current_version = 0 }

  -- `WatchManager.watch`; `id_of` is `item.get("id", "")`.
  unfoldable pub watch : (D → Text) → Text → ℕ → ResourceCache D → List (WatchEvent D)
  unfolding list get_changes_since
  watch id_of rtype version c =
      if version == 0
      then map
          (λ x. record {
            event_type = initial;
            resource_type = rtype;
            resource_id = id_of x;
            resource_version = 0;
            data_of = some x;
          })
          (list rtype c)
      else get_changes_since rtype version c

  -- `WatchManager.resync` of the items that the source function gave.
  unfoldable pub resync : List (Text × Text × D) → ResourceCache D → ℕ × ResourceCache D
  unfolding set
  resync [] c = (0, c)
  resync ((rtype, rid, x) ∷ items) c =
      let (n, c') = resync items (set rtype rid x c).1 in (n + 1, c')

-- `WatchManager.subscribe`, and the callbacks that `notify` calls, in order.
abbrev pub Clients : Type 0
Clients = Dict Text (List String)

abbrev pub clients_of : Text → Clients → List String
clients_of rtype clients = elim (lookup rtype clients) [ none ↦ [] | some cs ↦ cs ]

abbrev pub subscribe : Text → String → Clients → Clients
subscribe rtype callback clients =
    insert rtype (clients_of rtype clients ++ (callback ∷ [])) clients

abbrev pub star : Text
star = 42 ∷ []

unfoldable pub notify : {D : Type 0} → WatchEvent D → Clients → List String
notify e clients = clients_of e.resource_type clients ++ clients_of star clients
