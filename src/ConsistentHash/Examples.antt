-- ===== src/ConsistentHash/Examples.antt =====
-- The theorems on the ring at two nodes, with the length of a text as its hash.
use red_go.Base.{ℕ, [], ◌∷◌, some, codes, length, ◌≡◌, ◌≢◌, ◌⊎◌, arith}
use red_go.ConsistentHash.{NodeMap, name_of, add_nodes, pick_node}
use red_go.ConsistentHash.Search.{IsSorted}
use red_go.ConsistentHash.Pick.{IsNearest, pick_node_lem}
use red_go.ConsistentHash.Join.{pick_node-add_nodes}

abbrev two_nodes : NodeMap
two_nodes = record {
  node_hashs = 2 ∷ 5 ∷ [];
  nodehash_map = (2, codes "n1") ∷ (5, codes "node2") ∷ [];
}

two_nodes-IsSorted : IsSorted two_nodes.node_hashs
two_nodes-IsSorted = ((omega arith, tt), (tt, tt))

two_nodes-ne-nil : two_nodes.node_hashs ≢ []
two_nodes-ne-nil = ground arith

pick_node_lem_example :
    (x : ℕ) × (pick_node length two_nodes (codes "key") ≡ some (name_of x two_nodes.nodehash_map))
    × IsNearest (length (codes "key")) two_nodes.node_hashs x
pick_node_lem_example =
    pick_node_lem length two_nodes (codes "key") two_nodes-IsSorted two_nodes-ne-nil
      (omega arith, (omega arith, tt)) (omega arith)

pick_node-add_nodes_example :
    (pick_node length (add_nodes length two_nodes (codes "n003" ∷ [])) (codes "key")
      ≡ pick_node length two_nodes (codes "key"))
    ⊎ (pick_node length (add_nodes length two_nodes (codes "n003" ∷ [])) (codes "key")
        ≡ some (codes "n003"))
pick_node-add_nodes_example =
    pick_node-add_nodes length two_nodes b'n' (codes "003") (codes "key") two_nodes-IsSorted
      two_nodes-ne-nil
