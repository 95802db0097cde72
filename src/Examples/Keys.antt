-- ===== src/Examples/Keys.antt =====
-- include/slothash.h on the keys of the Redis cluster specification, and include/container.h on a
-- cluster of three nodes.
use cpp_hiredis_cluster.Base.{◌%◌, ◌^◌, ◌≡◌, refl, List, [], ◌∷◌, ◌++◌, some, arith}
use cpp_hiredis_cluster.Text.{Text, codes}
use cpp_hiredis_cluster.SlotHash.{crc16, slot_by_key, scan, low_14_bits}
use cpp_hiredis_cluster.SlotHash.Table.{crc16tab}
use cpp_hiredis_cluster.SlotHash.Reference.{crc_from}
use cpp_hiredis_cluster.SlotHash.Crc.{crc16-reference}
use cpp_hiredis_cluster.SlotHash.Slots.{slot_by_key-hashed_part}
use cpp_hiredis_cluster.Effect.Monad.{Conn}
use cpp_hiredis_cluster.Container.Types.{SlotRange}
use cpp_hiredis_cluster.Container.{search_by_slots}
use cpp_hiredis_cluster.Container.Search.{lookup_slot, search_by_slots_lem}

abbrev check_input : Text
check_input = codes "123456789"

-- The check value that the specification gives for this CRC.
crc16_check_value : crc16 check_input 9 ≡ some 0x31c3
unfolding crc16 crc16tab
crc16_check_value = refl

crc16-reference_example : crc16 (check_input ++ codes "xyz") 9 ≡ some (crc_from 0 check_input)
crc16-reference_example = crc16-reference check_input (codes "xyz") (omega arith)

abbrev tagged_key : Text
tagged_key = codes "a{user}b"

slot_by_key-hashed_part_example :
    slot_by_key tagged_key 8 ≡ some (crc_from 0 (codes "user") % 2 ^ 14)
slot_by_key-hashed_part_example = slot_by_key-hashed_part tagged_key (omega arith)

pub slot_foo : slot_by_key (codes "foo") 3 ≡ some 12182
unfolding slot_by_key crc16 crc16tab scan low_14_bits
slot_foo = refl

abbrev pub three_nodes : List (SlotRange × Conn)
three_nodes =
    (record { first = 0; second = 5460 }, 1)
    ∷ (record { first = 5461; second = 10922 }, 2)
    ∷ (record { first = 10923; second = 16383 }, 3)
    ∷ []

search_by_slots_lem_example : search_by_slots 12182 three_nodes ≡ lookup_slot 12182 three_nodes
search_by_slots_lem_example = search_by_slots_lem 12182 three_nodes (omega arith) (omega arith)
