-- ===== src/Domains.antt =====
-- The stores of telemetry, src/gpuopt/domains/stores.py: a bounded list in memory, and the same
-- list backed by a table of the database.
mod Refinement
mod Reload
mod Tests
use gpuopt.Base.{
  ℕ, ◌-◌, String, Bool, true, false, ◌&&◌, Option, none, some, List, [], ◌∷◌, ◌++◌, map, length,
  take, drop, filter, last, ltb, leb, if◌then◌else◌, ◌==◌, string_eq,
}

-- `RingStore`
pub record RingStore (T : Type 0) : Type 0 where
  pub entries : List T
  pub max : ℕ

module _ {T : Type 0} where
  -- `RingStore.add`
  unfoldable pub add : T → RingStore T → RingStore T
  add item s =
      let appended : List T = s.entries ++ (item ∷ []) in
      record {
        entries = if ltb s.max (length appended) then drop 1 appended else appended;
        max = s.max;
      }

  -- `RingStore.list`
  unfoldable pub list : ℕ → ℕ → RingStore T → List T
  list limit offset s = take limit (drop offset s.entries)

  -- One of the tests of `query`, on `after` or `before`; `timestamp` is the item's attribute, if any.
  unfoldable pub within : (T → Option ℕ) → (ℕ → Bool) → T → Bool
  within timestamp test e = elim (timestamp e) [ none ↦ false | some t ↦ test t ]

  unfoldable pub keep_after : (T → Option ℕ) → Option ℕ → List T → List T
  unfolding within
  keep_after timestamp none results = results
  keep_after timestamp (some after) results = filter (within timestamp (λ t. leb after t)) results

  unfoldable pub keep_before : (T → Option ℕ) → Option ℕ → List T → List T
  unfolding within
  keep_before timestamp none results = results
  keep_before timestamp (some before) results =
      filter (within timestamp (λ t. leb t before)) results

  unfoldable pub keep_passing : Option (T → Bool) → List T → List T
  keep_passing none results = results
  keep_passing (some filter_fn) results = filter filter_fn results

  -- `RingStore.query`
  unfoldable pub query :
      (T → Option ℕ) → Option ℕ → Option ℕ → Option (T → Bool) → ℕ → RingStore T → List T
  unfolding keep_after keep_before keep_passing
  query timestamp after before filter_fn limit s =
      let results =
        keep_passing filter_fn
          (keep_before timestamp before (keep_after timestamp after s.entries)) in
      if ltb limit (length results) then last limit results else results

  -- `RingStore.count`
  abbrev pub size : RingStore T → ℕ
  size s = length s.entries

  -- `RingStore.clear`
  unfoldable pub clear : RingStore T → RingStore T
  clear s = record { entries = []; max = s.max }

-- A row of the table `domain_events`, in the order of its ids; the other columns are for queries.
pub record EventRow : Type 0 where
  pub domain : String
  pub payload : String

-- `PersistentStore`, whose connection may be absent.
pub record PersistentStore (T : Type 0) : Type 0 where
  pub ring : RingStore T
  pub domain : String
  pub persistence_enabled : Bool
  pub connected : Bool

-- What reading a payload gives: `json.loads` may fail, and so may the validation by the domain's
-- model.
pub data Loaded (T : Type 0) : Type 0 where
  not_json : Loaded T
  not_valid : Loaded T
  loaded : T → Loaded T

-- `SELECT payload ... WHERE domain = ? ORDER BY id DESC`
unfoldable pub newest_first : String → List EventRow → List String
newest_first domain [] = []
newest_first domain (row ∷ rows) =
    let rest = newest_first domain rows in
    if row.domain == domain then rest ++ (row.payload ∷ []) else rest

module _ {T : Type 0} where
  -- What the database does with a statement is a fact of each call: `works`.
  -- `_persist`
  unfoldable pub persist : (T → String) → Bool → String → T → List EventRow → List EventRow
  persist dump works domain item rows =
      if works then rows ++ (record { domain = domain; payload = dump item } ∷ []) else rows

  -- `PersistentStore.add`
  unfoldable pub add_persistent :
      (T → String)
      → Bool
      → T
      → PersistentStore T
      → List EventRow
      → PersistentStore T × List EventRow
  unfolding add persist
  add_persistent dump works item s rows = (
    record {
      ring = add item s.ring;
      domain = s.domain;
      persistence_enabled = s.persistence_enabled;
      connected = s.connected;
    },
    if s.persistence_enabled && s.connected then persist dump works s.domain item rows else rows,
  )

  -- The loop of `reload`, and whether it reached the end: `json.loads` is outside the inner `try`.
  unfoldable pub load_rows : (String → Loaded T) → List T → List String → List T × Bool
  load_rows read entries [] = (entries, true)
  load_rows read entries (raw ∷ rows) = elim (read raw) [
    | not_json ↦ (entries, false)
    | not_valid ↦ load_rows read entries rows
    | loaded x ↦ load_rows read (entries ++ (x ∷ [])) rows
  ]

  unfoldable pub cut : ℕ → List T × Bool → List T
  cut max (entries, false) = entries
  cut max (entries, true) = if ltb max (length entries) then last max entries else entries

  -- `reload`
  unfoldable pub reload :
      (String → String → Loaded T)
      → Bool
      → ℕ
      → List EventRow
      → PersistentStore T
      → PersistentStore T
  unfolding newest_first load_rows cut
  reload read works limit rows s =
      if s.connected && works
      then record {
        ring = record {
          entries =
              cut s.ring.max
                (load_rows (read s.domain) [] (take limit (newest_first s.domain rows)));
          max = s.ring.max;
        };
        domain = s.domain;
        persistence_enabled = s.persistence_enabled;
        connected = s.connected;
      }
      else s

  -- `PersistentStore.clear`
  unfoldable pub clear_persistent :
      Bool → PersistentStore T → List EventRow → PersistentStore T × List EventRow
  unfolding clear
  clear_persistent works s rows = (
    record {
      ring = clear s.ring;
      domain = s.domain;
      persistence_enabled = s.persistence_enabled;
      connected = s.connected;
    },
    if s.persistence_enabled && s.connected && works
        then filter (λ (row : EventRow). if row.domain == s.domain then false else true) rows
        else rows,
  )
