-- ===== src/Database/Examples/Sets.antt =====
-- The theorems on sets at concrete commands.
use red_go.Base.{
  ℕ, ◌+◌, ◌||◌, ◌&&◌, not, Bool, [], ◌∷◌, ◌++◌, List, none, some, Bytes, codes, length, pos, negsuc,
  ◌≡◌, ◌≢◌, refl, arith, eq_bytes, reverse, All, inl, inr, if◌then◌else◌,
}
use red_go.GoMap.{lookup}
use red_go.Dict.{get_with_lock, get_shard, spread}
use red_go.Strconv.{parse_int, format_int}
use red_go.IntSet.{enc_int16, put_uint, le_bytes, to_bits}
use red_go.HashSet.{HashSet, Random, new_hash_set}
use red_go.HashSet.Numbers.{IsCanonical, prints-IsCanonical}
use red_go.HashSet.Refine.{Represents}
use red_go.Database.{Db, set_data, replied}
use red_go.Database.Laws.{IsValid}
use red_go.Database.Sets.{found_set, get_as_set, exec_s_add}
use red_go.Database.Sets.Calculate.{exec_s_union_store, exec_s_inter, exec_s_diff}
use red_go.Database.Sets.Commands.{exec_s_add_lem, Added}
use red_go.Database.Sets.Meets.{exec_s_inter_diff_lem, Replies}
use red_go.Database.Sets.Algebra.{elem_any, elem_all}
use red_go.Database.Sets.Stores.{exec_s_union_store_lem, Stored}
use red_go.Database.Sets.Under.{Holds}
use red_go.HashSet.Numbers.{elem}
use red_go.Database.Examples.{x, y}

-- The integers 1 and 3, in two words of 16 bits
abbrev odd : HashSet
odd = record new_hash_set {
  intset = record {
    encoding = enc_int16;
    length = 2;
    contents = record { array = 1 ∷ 0 ∷ 3 ∷ 0 ∷ []; len = 4 };
  };
}

abbrev one : Bytes
one = codes "1"

abbrev three : Bytes
three = codes "3"

odd-Represents : Represents odd (one ∷ three ∷ [])
unfolding put_uint le_bytes to_bits format_int red_go.Strconv.itoa eq_bytes
odd-Represents = (
  prints-IsCanonical (pos 1 ∷ pos 3 ∷ []) (omega arith, (omega arith, tt)),
  (refl, (refl, tt)),
  inl (
    pos 1 ∷ pos 3 ∷ [],
    (
      refl,
      refl,
      (
        (([], refl), omega arith, omega arith, refl, (omega arith, (omega arith, tt))),
        ((refl, tt), (tt, tt)),
        omega arith,
      ),
      (omega arith, (omega arith, tt)),
      omega arith,
    ),
    refl,
  ),
)

-- The words x and y, in a map
abbrev letters : HashSet
letters = record new_hash_set { dict = (x, tt) ∷ (y, tt) ∷ []; is_intset = red_go.Base.false }

x-IsCanonical : IsCanonical x
unfolding parse_int
x-IsCanonical v e = absurd (cc)

y-IsCanonical : IsCanonical y
unfolding parse_int
y-IsCanonical v e = absurd (cc)

three-IsCanonical : IsCanonical three
three-IsCanonical = odd-Represents.0.1.0

letters-Represents : Represents letters (x ∷ y ∷ [])
unfolding eq_bytes
letters-Represents = ((x-IsCanonical, (y-IsCanonical, tt)), (refl, (refl, tt)), inr (refl, refl))

abbrev p : Bytes
p = codes "p"

abbrev q : Bytes
q = codes "q"

abbrev r : Bytes
r = codes "r"

-- A database of the two sets.
abbrev two_sets : Db
two_sets = record {
  data_dict = record {
    table = ((p, set_data odd) ∷ (q, set_data letters) ∷ []) ∷ [];
    count = 2;
    shard_count = 1;
  };
  aof = [];
}

two_sets-IsValid : IsValid two_sets
two_sets-IsValid = (omega arith, omega arith)

p-found : get_as_set two_sets p ≡ found_set odd
unfolding get_as_set red_go.Database.get_entity get_with_lock get_shard spread lookup eq_bytes
p-found = refl

q-found : get_as_set two_sets q ≡ found_set letters
unfolding get_as_set red_go.Database.get_entity get_with_lock get_shard spread lookup eq_bytes
q-found = refl

p-Holds : Holds (get_as_set two_sets p) (one ∷ three ∷ [])
p-Holds = rw p-found odd-Represents

q-Holds : Holds (get_as_set two_sets q) (x ∷ y ∷ [])
q-Holds = rw q-found letters-Represents

exec_s_add_lem_example :
    Added two_sets p (x ∷ three ∷ []) (one ∷ three ∷ []) (exec_s_add two_sets (p ∷ x ∷ three ∷ []))
exec_s_add_lem_example =
    exec_s_add_lem two_sets p (x ∷ three ∷ []) (one ∷ three ∷ []) two_sets-IsValid p-Holds
      (x-IsCanonical, (three-IsCanonical, tt))

exec_s_union_store_lem_example :
    Stored two_sets r
      (λ j. elem_any j ((one ∷ three ∷ []) ∷ (x ∷ y ∷ []) ∷ []))
      (exec_s_union_store two_sets (r ∷ p ∷ q ∷ []))
exec_s_union_store_lem_example =
    exec_s_union_store_lem two_sets r (p ∷ q ∷ []) ((one ∷ three ∷ []) ∷ (x ∷ y ∷ []) ∷ [])
      two_sets-IsValid (p-Holds, (q-Holds, tt))

exec_s_inter_diff_lem_example :
    Replies two_sets
      (λ j. elem j (one ∷ three ∷ []) && elem_all j ((x ∷ y ∷ []) ∷ []))
      (exec_s_inter two_sets (p ∷ q ∷ []))
    × Replies two_sets
        (λ j. elem j (one ∷ three ∷ []) && not (elem_any j ((x ∷ y ∷ []) ∷ [])))
        (exec_s_diff two_sets (p ∷ q ∷ []))
exec_s_inter_diff_lem_example =
    exec_s_inter_diff_lem two_sets p (q ∷ []) (one ∷ three ∷ []) ((x ∷ y ∷ []) ∷ []) p-Holds
      (q-Holds, tt)

-- The generator that changes no order and draws the first member
abbrev still : Random
still = record { shuffle = λ ms. ms; intn = λ i n. 0 }
