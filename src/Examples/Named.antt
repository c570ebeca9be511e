-- ===== src/Examples/Named.antt =====
-- A heap and a table of names together.
use nvm_malloc.Base.{ℕ, ◌≡◌, arith, none, refl}
use nvm_malloc.ObjectTable.{ot_get, ot_insert, reserve_slot, insert_at}
use nvm_malloc.Tree.{tree_upper_bound}
use nvm_malloc.NvmMalloc.{nvm_reserve, reserve_chunks, split_huge}
use nvm_malloc.NvmMalloc.Ids.{System, nvm_reserve_id}
use nvm_malloc.NvmMalloc.Ids.Reserve.{Named, nvm_reserve_id-nvm_get_id}
use nvm_malloc.Examples.Heap.{env, from, with_regions}
use nvm_malloc.Examples.Names.{map, table, name}
use nvm_malloc.Examples.Trees.{huge_tree, sorted_tree}

abbrev pub system : System map
system = record { state = with_regions; table = table }

abbrev reserved : ℕ × System map
reserved = from (0, system) (nvm_reserve_id map env 1 name 9000000 system)

nvm_reserve_id-nvm_get_id_example :
    (ot_get map name table ≡ none) × Named map name reserved.0 system reserved.1
unfolding nvm_reserve_id nvm_reserve reserve_chunks split_huge tree_upper_bound huge_tree
    sorted_tree ot_get ot_insert reserve_slot insert_at
nvm_reserve_id-nvm_get_id_example =
    nvm_reserve_id-nvm_get_id map env 1 name 9000000 system reserved.0 reserved.1 (omega arith) refl
      (λ e. omega (arith, e))
