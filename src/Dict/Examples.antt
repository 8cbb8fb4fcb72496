-- ===== src/Dict/Examples.antt =====
-- The theorems on the dictionary at a dictionary of two shards.
use red_go.Base.{[], ◌∷◌, some, Bytes, codes, ◌≡◌, refl, arith, eq_bytes, if◌then◌else◌}
use red_go.GoMap
use red_go.Dict.{Dict, get_with_lock, put_with_lock}
use red_go.Dict.Laws.{HasShards, get-put}
use red_go.Dict.Count.{IsCounted, put-IsCounted}

-- `a` is in the second shard.
abbrev two_shards : Dict Bytes
two_shards = record { table = [] ∷ ((codes "a", codes "1") ∷ []) ∷ []; count = 1; shard_count = 2 }

two_shards-HasShards : HasShards two_shards
two_shards-HasShards = (omega arith, omega arith)

two_shards-IsCounted : IsCounted two_shards
unfolding GoMap.lookup
two_shards-IsCounted = ((tt, ((refl, tt), tt)), refl)

get-put_example : get_with_lock (put_with_lock two_shards (codes "b") (codes "2")).0 (codes "a") ≡ (
    if eq_bytes (codes "b") (codes "a")
    then some (codes "2")
    else get_with_lock two_shards (codes "a"))
get-put_example = get-put two_shards (codes "b") (codes "a") (codes "2") two_shards-HasShards

put-IsCounted_example : IsCounted (put_with_lock two_shards (codes "b") (codes "2")).0
put-IsCounted_example =
    put-IsCounted two_shards (codes "b") (codes "2") two_shards-HasShards two_shards-IsCounted
