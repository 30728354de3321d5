-- ===== src/Klib/List/Tests.antt =====
-- A ring with the sentinel 10 and the nodes 11, 12 and 13.
use pepin_os.Base.{◌≡◌, refl, arith, some, [], ◌∷◌}
use pepin_os.Klib.List.{Links, list_init, list_add, list_add_tail, list_del, list_for_each}
use pepin_os.Klib.List.Chain.{IsRing}
use pepin_os.Klib.List.Insert.{list_init-IsRing, list_add_tail-IsRing}
use pepin_os.Klib.List.Delete.{list_del-IsRing}
use pepin_os.Klib.List.Traverse.{list_for_each_lem}

abbrev blank : Links
blank = record { next = λ _. 0; prev = λ _. 0 }

abbrev zero_nodes : Links
zero_nodes = list_init 10 blank

abbrev one_node : Links
one_node = list_add_tail 10 11 zero_nodes

abbrev two_nodes : Links
two_nodes = list_add_tail 10 12 one_node

visits : list_for_each 9 10 (list_del 11 (list_add 10 13 two_nodes)) ≡ some (13 ∷ 12 ∷ [])
unfolding list_for_each list_del list_add list_add_tail list_init
visits = refl

one_node-IsRing : IsRing one_node 10 (11 ∷ [])
one_node-IsRing = list_add_tail-IsRing 11 (list_init-IsRing blank 10) refl

two_nodes-IsRing : IsRing two_nodes 10 (11 ∷ 12 ∷ [])
two_nodes-IsRing = list_add_tail-IsRing 12 one_node-IsRing refl

list_del-IsRing_example : IsRing (list_del 11 two_nodes) 10 (12 ∷ [])
list_del-IsRing_example = list_del-IsRing [] 11 (12 ∷ []) two_nodes-IsRing

list_for_each_lem_example : list_for_each 3 10 two_nodes ≡ some (11 ∷ 12 ∷ [])
list_for_each_lem_example = list_for_each_lem 3 (11 ∷ 12 ∷ []) two_nodes-IsRing (omega arith)
