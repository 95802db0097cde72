-- ===== src/Examples/Waits.antt =====
-- A client of the event loop whose read fails once.
use cpp_hiredis_cluster.Base.{true, false, ◌≡◌, refl, [], ◌∷◌, Bool}
use cpp_hiredis_cluster.Boost.{
  Client, new_client, call_hook, handle_read, hook_add_read, hook_add_write, success, other,
  add_read, operate, start_read, start_write,
}
use cpp_hiredis_cluster.Boost.Waiting.{
  Reaches, start, hooked, read_done, Reaches-waiting, handle_read_stalls,
}

-- hiredis wants to read, reads, and wants to write as well.
abbrev reading : Client
reading = call_hook hook_add_read new_client

abbrev busy : Client
busy = handle_read success (hook_add_write ∷ []) (record reading { pending_reads = 0 })

one_read : reading.pending_reads ≡ 1
unfolding call_hook add_read operate start_read start_write
one_read = refl

reading-Reaches : (failures : Bool) → Reaches failures reading
reading-Reaches failures = hooked hook_add_read new_client start

busy-Reaches : (failures : Bool) → Reaches failures busy
busy-Reaches failures =
    read_done success (hook_add_write ∷ []) reading 0 refl one_read (reading-Reaches failures)

Reaches-waiting_example :
    (busy.read_requested ≡ true → busy.pending_reads ≡ 1)
    × (busy.write_requested ≡ true → busy.pending_writes ≡ 1)
Reaches-waiting_example = Reaches-waiting busy (busy-Reaches false)

handle_read_stalls_example :
    ((handle_read other [] (record reading { pending_reads = 0 })).pending_reads ≡ 0)
    × ((handle_read other [] (record reading { pending_reads = 0 })).read_requested
        ≡ reading.read_requested)
    × ((add_read (handle_read other [] (record reading { pending_reads = 0 }))).pending_reads ≡ 1)
handle_read_stalls_example = handle_read_stalls true [] reading 0 (reading-Reaches true) one_read
