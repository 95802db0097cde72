-- ===== src/Boost.antt =====
-- include/adapters/hiredis-boostasio-adapter/boostasio.cpp: the client that waits on a socket for
-- hiredis.
pub mod Waiting
use cpp_hiredis_cluster.Base.{ℕ, ◌+◌, Bool, true, false, not, ◌&&◌, List, [], ◌∷◌, if◌then◌else◌}

-- `boost::system::error_code`, as far as the handlers tell codes apart.
pub data ErrorCode : Type 0 where
  success would_block other : ErrorCode

-- `!ec`
abbrev pub is_success : ErrorCode → Bool
is_success success = true
is_success ec = false

-- `!ec || ec == boost::asio::error::would_block`
abbrev pub goes_on : ErrorCode → Bool
goes_on other = false
goes_on ec = true

-- The members of `redisBoostClient`, and how many operations the socket holds whose handlers have
-- not been called yet.
pub record Client : Type 0 where
  pub read_requested : Bool
  pub write_requested : Bool
  pub read_in_progress : Bool
  pub write_in_progress : Bool
  pub pending_reads : ℕ
  pub pending_writes : ℕ

-- The constructor.
abbrev pub new_client : Client
new_client = record {
  read_requested = false;
  write_requested = false;
  read_in_progress = false;
  write_in_progress = false;
  pending_reads = 0;
  pending_writes = 0;
}

unfoldable pub start_read : Client → Client
start_read s =
    if s.read_requested && not s.read_in_progress
    then record s { read_in_progress = true; pending_reads = s.pending_reads + 1 }
    else s

unfoldable pub start_write : Client → Client
start_write s =
    if s.write_requested && not s.write_in_progress
    then record s { write_in_progress = true; pending_writes = s.pending_writes + 1 }
    else s

unfoldable pub operate : Client → Client
operate s = start_write (start_read s)

unfoldable pub add_read : Client → Client
add_read s = operate (record s { read_requested = true })

unfoldable pub del_read : Client → Client
del_read s = record s { read_requested = false }

unfoldable pub add_write : Client → Client
add_write s = operate (record s { write_requested = true })

unfoldable pub del_write : Client → Client
del_write s = record s { write_requested = false }

-- The hooks that are registered with hiredis; `cleanup` prints a line.
pub data Hook : Type 0 where
  hook_add_read hook_del_read hook_add_write hook_del_write hook_cleanup : Hook

unfoldable pub call_hook : Hook → Client → Client
call_hook hook_add_read s = add_read s
call_hook hook_del_read s = del_read s
call_hook hook_add_write s = add_write s
call_hook hook_del_write s = del_write s
call_hook hook_cleanup s = s

abbrev pub call_hooks : List Hook → Client → Client
call_hooks [] s = s
call_hooks (k ∷ ks) s = call_hooks ks (call_hook k s)

-- The handlers; `hooks` are the calls that hiredis makes in `redisAsyncHandleRead` and
-- `redisAsyncHandleWrite`.
unfoldable pub handle_read : ErrorCode → List Hook → Client → Client
handle_read ec hooks s =
    let idle : Client = record s { read_in_progress = false } in
    let handled : Client = if is_success ec then call_hooks hooks idle else idle in
    if goes_on ec then operate handled else handled

unfoldable pub handle_write : ErrorCode → List Hook → Client → Client
handle_write ec hooks s =
    let idle : Client = record s { write_in_progress = false } in
    let handled : Client = if is_success ec then call_hooks hooks idle else idle in
    if goes_on ec then operate handled else handled
