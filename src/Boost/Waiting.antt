-- ===== src/Boost/Waiting.antt =====
-- The operations that the client has on its socket, over all runs of the event loop.
use cpp_hiredis_cluster.Base.{
  ℕ, suc, ◌<◌, Bool, true, false, ◌||◌, List, [], ◌∷◌, ◌≡◌, refl, if◌then◌else◌, arith,
}
use cpp_hiredis_cluster.Boost.{
  ErrorCode, success, would_block, other, goes_on, is_success, Client, new_client, start_read,
  start_write, operate, add_read, del_read, add_write, del_write, Hook, call_hook, call_hooks,
  handle_read, handle_write, hook_add_read, hook_del_read, hook_add_write, hook_del_write,
  hook_cleanup,
}

abbrev pub held : Bool → ℕ
held true = 1
held false = 0

-- The socket holds one operation for each flag that is set, and none otherwise.
abbrev pub IsExclusive : Client → Type 0
IsExclusive s =
    (s.pending_reads ≡ held s.read_in_progress) × (s.pending_writes ≡ held s.write_in_progress)

-- What hiredis waits for, the socket waits for.
abbrev pub IsServed : Client → Type 0
IsServed s =
    (s.read_requested ≡ true → s.read_in_progress ≡ true)
    × (s.write_requested ≡ true → s.write_in_progress ≡ true)

-- The clients that a run of the event loop reaches: hiredis calls a hook at any time, and the
-- handler of a pending operation is called once. Without `failures`, no operation ends in an error
-- other than `would_block`.
pub data Reaches (failures : Bool) : Client → Type 0 where
  start : Reaches failures new_client
  hooked : (k : Hook) (s : Client) → Reaches failures s → Reaches failures (call_hook k s)
  read_done :
      (ec : ErrorCode) (hooks : List Hook) (s : Client) (n : ℕ)
      → (goes_on ec || failures) ≡ true
      → s.pending_reads ≡ suc n
      → Reaches failures s
      → Reaches failures (handle_read ec hooks (record s { pending_reads = n }))
  write_done :
      (ec : ErrorCode) (hooks : List Hook) (s : Client) (n : ℕ)
      → (goes_on ec || failures) ≡ true
      → s.pending_writes ≡ suc n
      → Reaches failures s
      → Reaches failures (handle_write ec hooks (record s { pending_writes = n }))

start_read-IsExclusive : (s : Client) → IsExclusive s → IsExclusive (start_read s)
unfolding start_read
start_read-IsExclusive s e = ground arith

start_write-IsExclusive : (s : Client) → IsExclusive s → IsExclusive (start_write s)
unfolding start_write
start_write-IsExclusive s e = ground arith

operate-IsExclusive : (s : Client) → IsExclusive s → IsExclusive (operate s)
unfolding operate
operate-IsExclusive s e = start_write-IsExclusive (start_read s) (start_read-IsExclusive s e)

operate-IsServed : (s : Client) → IsServed (operate s)
unfolding operate start_read start_write
operate-IsServed s = ground arith

call_hook-IsExclusive : (k : Hook) (s : Client) → IsExclusive s → IsExclusive (call_hook k s)
unfolding call_hook add_read del_read add_write del_write
call_hook-IsExclusive hook_add_read s e = operate-IsExclusive (record s { read_requested = true }) e
call_hook-IsExclusive hook_del_read s e = e
call_hook-IsExclusive hook_add_write s e =
    operate-IsExclusive (record s { write_requested = true }) e
call_hook-IsExclusive hook_del_write s e = e
call_hook-IsExclusive hook_cleanup s e = e

call_hooks-IsExclusive :
    (ks : List Hook) (s : Client) → IsExclusive s → IsExclusive (call_hooks ks s)
call_hooks-IsExclusive [] s e = e
call_hooks-IsExclusive (k ∷ ks) s e =
    call_hooks-IsExclusive ks (call_hook k s) (call_hook-IsExclusive k s e)

call_hook-IsServed : (k : Hook) (s : Client) → IsServed s → IsServed (call_hook k s)
unfolding call_hook add_read del_read add_write del_write
call_hook-IsServed hook_add_read s e = operate-IsServed (record s { read_requested = true })
call_hook-IsServed hook_del_read s e = ((λ h. cc), e.1)
call_hook-IsServed hook_add_write s e = operate-IsServed (record s { write_requested = true })
call_hook-IsServed hook_del_write s e = (e.0, (λ h. cc))
call_hook-IsServed hook_cleanup s e = e

-- The handler of the one pending operation leaves none behind, until it starts the next.
last_of-held : (flag : Bool) (k n : ℕ) → k ≡ held flag → k ≡ suc n → n ≡ 0
last_of-held true k n e f = omega arith
last_of-held false k n e f = omega arith

handled-IsExclusive :
    (ec : ErrorCode) (hooks : List Hook) (idle : Client)
    → IsExclusive idle
    → IsExclusive (
        if goes_on ec
        then operate (if is_success ec then call_hooks hooks idle else idle)
        else if is_success ec
        then call_hooks hooks idle
        else idle)
handled-IsExclusive success hooks idle e =
    operate-IsExclusive _ (call_hooks-IsExclusive hooks idle e)
handled-IsExclusive would_block hooks idle e = operate-IsExclusive idle e
handled-IsExclusive other hooks idle e = e

handle_read-IsExclusive :
    (ec : ErrorCode) (hooks : List Hook) (s : Client) (n : ℕ)
    → s.pending_reads ≡ suc n
    → IsExclusive s
    → IsExclusive (handle_read ec hooks (record s { pending_reads = n }))
unfolding handle_read
handle_read-IsExclusive ec hooks s n p e =
    handled-IsExclusive ec hooks (record s { pending_reads = n; read_in_progress = false })
      (last_of-held s.read_in_progress s.pending_reads n e.0 p, e.1)

handle_write-IsExclusive :
    (ec : ErrorCode) (hooks : List Hook) (s : Client) (n : ℕ)
    → s.pending_writes ≡ suc n
    → IsExclusive s
    → IsExclusive (handle_write ec hooks (record s { pending_writes = n }))
unfolding handle_write
handle_write-IsExclusive ec hooks s n p e =
    handled-IsExclusive ec hooks (record s { pending_writes = n; write_in_progress = false })
      (e.0, last_of-held s.write_in_progress s.pending_writes n e.1 p)

Reaches-IsExclusive : (failures : Bool) (s : Client) → Reaches failures s → IsExclusive s
Reaches-IsExclusive failures _ start = (refl, refl)
Reaches-IsExclusive failures _ (hooked k s r) =
    call_hook-IsExclusive k s (Reaches-IsExclusive failures s r)
Reaches-IsExclusive failures _ (read_done ec hooks s n g p r) =
    handle_read-IsExclusive ec hooks s n p (Reaches-IsExclusive failures s r)
Reaches-IsExclusive failures _ (write_done ec hooks s n g p r) =
    handle_write-IsExclusive ec hooks s n p (Reaches-IsExclusive failures s r)

handle_read-IsServed :
    (ec : ErrorCode) (hooks : List Hook) (s : Client)
    → (goes_on ec || false) ≡ true
    → IsServed (handle_read ec hooks s)
unfolding handle_read
handle_read-IsServed success hooks s g = operate-IsServed _
handle_read-IsServed would_block hooks s g = operate-IsServed _
handle_read-IsServed other hooks s g = cc

handle_write-IsServed :
    (ec : ErrorCode) (hooks : List Hook) (s : Client)
    → (goes_on ec || false) ≡ true
    → IsServed (handle_write ec hooks s)
unfolding handle_write
handle_write-IsServed success hooks s g = operate-IsServed _
handle_write-IsServed would_block hooks s g = operate-IsServed _
handle_write-IsServed other hooks s g = cc

Reaches-IsServed : (s : Client) → Reaches false s → IsServed s
Reaches-IsServed _ start = ((λ h. cc), (λ h. cc))
Reaches-IsServed _ (hooked k s r) = call_hook-IsServed k s (Reaches-IsServed s r)
Reaches-IsServed _ (read_done ec hooks s n g p r) =
    handle_read-IsServed ec hooks (record s { pending_reads = n }) g
Reaches-IsServed _ (write_done ec hooks s n g p r) =
    handle_write-IsServed ec hooks (record s { pending_writes = n }) g

held-lt : (flag : Bool) (n : ℕ) → n ≡ held flag → n < 2
held-lt true n e = omega arith
held-lt false n e = omega arith

-- In every run of the event loop, with any errors and any calls of the hooks, the socket never
-- holds more than one read and one write.
Reaches-pending_lt :
    (failures : Bool) (s : Client)
    → Reaches failures s
    → (s.pending_reads < 2) × (s.pending_writes < 2)
Reaches-pending_lt failures s r =
    let e = Reaches-IsExclusive failures s r in
    (
      held-lt s.read_in_progress s.pending_reads e.0,
      held-lt s.write_in_progress s.pending_writes e.1,
    )

held-one : (flag : Bool) (n : ℕ) → n ≡ held flag → flag ≡ true → n ≡ 1
held-one true n e f = e
held-one false n e f = cc

-- In every run in which no operation ends in an error other than `would_block`, the socket holds
-- exactly one read while hiredis wants to read, and exactly one write while it wants to write.
pub Reaches-waiting :
    (s : Client)
    → Reaches false s
    → (s.read_requested ≡ true → s.pending_reads ≡ 1)
      × (s.write_requested ≡ true → s.pending_writes ≡ 1)
Reaches-waiting s r =
    let e = Reaches-IsExclusive false s r in
    let served = Reaches-IsServed s r in
    (
      λ wanted. held-one s.read_in_progress s.pending_reads e.0 (served.0 wanted),
      λ wanted. held-one s.write_in_progress s.pending_writes e.1 (served.1 wanted),
    )

-- After any run, a read that ends in another error leaves the socket without a read, whatever
-- hiredis wants, and hiredis wants it still; only the next call that operates the client, such as
-- `add_read`, starts a read again, and then exactly one.
pub handle_read_stalls :
    (failures : Bool) (hooks : List Hook) (s : Client) (n : ℕ)
    → Reaches failures s
    → s.pending_reads ≡ suc n
    → ((handle_read other hooks (record s { pending_reads = n })).pending_reads ≡ 0)
      × ((handle_read other hooks (record s { pending_reads = n })).read_requested
          ≡ s.read_requested)
      × ((add_read (handle_read other hooks (record s { pending_reads = n }))).pending_reads ≡ 1)
unfolding handle_read add_read operate start_read start_write
handle_read_stalls failures hooks s n r p =
    let e = Reaches-IsExclusive failures s r in
    let none_left = last_of-held s.read_in_progress s.pending_reads n e.0 p in
    (none_left, refl, ground arith)
