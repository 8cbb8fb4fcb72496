-- ===== src/Database/Examples/Lists.antt =====
-- The theorems on lists at concrete commands.
use red_go.Base.{[], ◌∷◌, some, codes, length, pos, negsuc, ◌≡◌, refl, eq_bytes}
use red_go.GoMap.{lookup}
use red_go.Dict.{get_with_lock, get_shard, spread}
use red_go.Strconv.{parse_int}
use red_go.Reply.{multi_bulk_reply, to_bytes}
use red_go.Database.{get_entity}
use red_go.Database.Lists.{get_as_list, from_end, range_reply}
use red_go.Database.Lists.Commands.{Holds}
use red_go.Database.Lists.Range.{range_reply-slice}
use red_go.Database.Examples.{queue, x, y, z, sample}

queue-Holds : Holds (get_as_list sample queue) (x ∷ y ∷ [])
unfolding get_as_list get_entity get_with_lock get_shard spread lookup eq_bytes
queue-Holds = refl

last_index : from_end (length (x ∷ y ∷ [])) (negsuc 0) ≡ pos 1
unfolding from_end
last_index = refl

minus_one : parse_int (codes "-1") ≡ some (negsuc 0)
unfolding parse_int
minus_one = refl

range_reply-slice_example :
    to_bytes (range_reply (negsuc 1) (pos 9) (x ∷ y ∷ z ∷ []))
    ≡ to_bytes (multi_bulk_reply (some y ∷ some z ∷ []))
range_reply-slice_example = range_reply-slice (negsuc 1) (pos 9) (x ∷ y ∷ z ∷ [])
