-- ===== src/Database/Examples.antt =====
-- A database of three keys, at which the theorems on the commands are applied.
mod Keys
mod Lists
mod Hashes
mod Sets
mod ZSets
use red_go.Base.{[], ◌∷◌, some, Bytes, codes, ◌≡◌, refl, arith, eq_bytes}
use red_go.GoMap.{lookup}
use red_go.Dict.{Dict, get_with_lock, get_shard, spread}
use red_go.Hash.{Hash, make_hash}
use red_go.Database.{Db, bytes_data, list_data, hash_data, get_entity}
use red_go.Database.Laws.{IsValid}

abbrev pub name : Bytes
name = codes "name"

abbrev pub queue : Bytes
queue = codes "queue"

abbrev pub user : Bytes
user = codes "user"

abbrev pub x : Bytes
x = codes "x"

abbrev pub y : Bytes
y = codes "y"

abbrev pub z : Bytes
z = codes "z"

abbrev pub user_hash : Hash
user_hash = record make_hash { listpack = (x, y) ∷ [] }

-- A database of a string, a list and a hash.
abbrev pub sample : Db
sample = record {
  data_dict = record {
    table =
        ((name, bytes_data x) ∷ (queue, list_data (x ∷ y ∷ [])) ∷ (user, hash_data user_hash) ∷ [])
        ∷ [];
    count = 3;
    shard_count = 1;
  };
  aof = [];
}

pub sample-IsValid : IsValid sample
sample-IsValid = (omega arith, omega arith)

pub name-bytes : get_entity sample name ≡ some (bytes_data x)
unfolding get_entity get_with_lock get_shard spread lookup eq_bytes
name-bytes = refl

pub queue-list : get_entity sample queue ≡ some (list_data (x ∷ y ∷ []))
unfolding get_entity get_with_lock get_shard spread lookup eq_bytes
queue-list = refl
