-- ===== src/Watch/Tests.antt =====
-- The watch theorems at a cache of two jobs.
use gpuopt.Base.{ℕ, ◌≡◌, ◌≤◌, ◌+◌, refl, count, arith}
use gpuopt.Base.Text.{codes}
use gpuopt.Watch.{Text, ResourceCache, new_cache, set, delete, get_changes_since}
use gpuopt.Watch.Cache.{IsSound, start, sets, deletes, ReachableCache-IsSound}
use gpuopt.Watch.Changes.{is_event, set_is_told}

abbrev job : Text
job = codes "job"

abbrev one : Text
one = codes "1"

abbrev two : Text
two = codes "2"

abbrev cache : ResourceCache ℕ
cache = (set job two 11 (set job one 10 (new_cache 2)).1).1

ReachableCache-IsSound_example : IsSound (delete job one cache).1
ReachableCache-IsSound_example =
    ReachableCache-IsSound 2 (deletes job one (sets job two 11 (sets job one 10 start)))

two_updates : cache.current_version ≡ 2
unfolding set
two_updates = refl

set_is_told_example :
    1
    ≤ count
        (is_event (cache.current_version + 1) one)
        (get_changes_since job 2 (set job one 12 cache).1)
set_is_told_example = set_is_told job one 12 cache 2 (omega (arith, two_updates))
