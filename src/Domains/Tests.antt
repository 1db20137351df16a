-- ===== src/Domains/Tests.antt =====
-- A store of at most two readings, written to a table as texts.
use gpuopt.Base.{String, true, ◌≡◌, refl, List, [], ◌∷◌, ◌≤◌, arith, length, string_eq}
use gpuopt.Domains.{PersistentStore, loaded, reload, newest_first}
use gpuopt.Domains.Refinement.{StoreOp, add_item, clear_all, run, store_refines}
use gpuopt.Domains.Reload.{add_all, reload_reverses}

abbrev ops : List (StoreOp String)
ops = add_item "a" ∷ clear_all ∷ add_item "b" ∷ add_item "c" ∷ add_item "d" ∷ []

store_refines_example :
    ((run ops (record { entries = []; max = 2 })).entries ≡ "c" ∷ "d" ∷ [])
    × (length ((run ops (record { entries = []; max = 2 })).entries) ≤ 2)
store_refines_example = store_refines 2 ops

abbrev store : PersistentStore String
store = record {
  ring = record { entries = []; max = 2 };
  domain = "training_runs";
  persistence_enabled = true;
  connected = true;
}

abbrev items : List String
items = "first" ∷ "second" ∷ "third" ∷ []

-- The newest item is gone, and the two oldest stand in the wrong order.
reload_reverses_example :
    let (s, rows) = add_all (λ x. x) items store [] in
    (reload (λ d p. loaded p) true 50000 rows s).ring.entries ≡ "second" ∷ "first" ∷ []
unfolding newest_first
reload_reverses_example =
    reload_reverses (λ x. x) (λ d p. loaded p) 50000 items store [] (λ x. refl) (refl, refl) refl
      (omega arith) (omega arith)
