-- ===== src/Command/Buffer.antt =====
-- include/hirediscommand.h: the command object, whose buffer holds the formatted command.
use cpp_hiredis_cluster.Base.{
  ℕ, Bool, true, false, List, [], ◌∷◌, Option, none, some, ◌≡◌, refl, if◌then◌else◌,
}
use cpp_hiredis_cluster.Text.{Text}
use cpp_hiredis_cluster.Effect.Exception.{invalid_argument}
use cpp_hiredis_cluster.Effect.Reply.{RedisReply}
use cpp_hiredis_cluster.Effect.Monad.{
  Outcome, ok, throw, fault, blocked, Hiredis, World, Action, after, pure, raise, lift, ◌>>=◌,
}
use cpp_hiredis_cluster.Container.Interface.{ConnectionContainer}
use cpp_hiredis_cluster.Cluster.{Cluster, get_connection}
use cpp_hiredis_cluster.Command.{process, command}

-- `CommandType`: which constructor made the command, and so which allocator its buffer is from.
pub data CommandType : Type 0 where
  sds formatted_string : CommandType

-- `redisFormatSdsCommandArgv` and `redisvFormatCommand` on the caller's arguments: `none` is a length
-- of -1, with the pointer left null.
pub record Formatter (E : Type 0) : Type 0 where
  pub format : CommandType → E → Option Text × E

-- The cluster, and the buffers that are allocated, each with its allocator.
pub record Buffered (S : Type 0) : Type 0 where
  pub cluster : Cluster S
  pub buffers : List CommandType

same_type : CommandType → CommandType → Bool
same_type sds sds = true
same_type formatted_string formatted_string = true
same_type a b = false

-- `sdsfree` or `free` of the newest buffer: `none` if the other allocator gave it, or none is there.
released : CommandType → List CommandType → Option (List CommandType)
unfolding same_type
released by [] = none
released by (type ∷ buffers) = if same_type by type then some buffers else none

allocated : CommandType → Option Text → List CommandType → List CommandType
allocated type none buffers = buffers
allocated type (some text) buffers = type ∷ buffers

freed_to : {S : Type 0} → Option (List CommandType) → Buffered S → Outcome (Unit {0}) × Buffered S
freed_to none st = (fault, st)
freed_to (some buffers) st = (ok tt, record st { buffers = buffers })

module _ {S E : Type 0} where
  -- A call on `*cluster_p_`.
  on_cluster : {A : Type 0} → Action (Cluster S) E A → Action (Buffered S) E A
  on_cluster m st w = let (r, cl, w') = m st.cluster w in (r, record st { cluster = cl }, w')

  free_with : CommandType → Option Text → Action (Buffered S) E (Unit {0})
  unfolding released freed_to
  free_with by none st w = (ok tt, st, w)
  free_with by (some text) st w = let (r, st') = freed_to (released by st.buffers) st in (r, st', w)

  -- `~HiredisCommand`
  destroy : CommandType → Option Text → Action (Buffered S) E (Unit {0})
  unfolding free_with
  destroy sds cmd = free_with sds cmd
  destroy formatted_string cmd = free_with formatted_string cmd

  -- The end of the temporary object, behind a return and behind a throw.
  at_end :
      {A : Type 0}
      → Action (Buffered S) E (Unit {0})
      → Outcome A × Buffered S × World E
      → Outcome A × Buffered S × World E
  at_end d (ok a, st, w) = after (λ _. pure a) (d st w)
  at_end d (throw x, st, w) = after (λ _. raise x) (d st w)
  at_end d (fault, st, w) = (fault, st, w)
  at_end d (blocked, st, w) = (blocked, st, w)

  -- The constructors. When they throw, no destructor runs.
  new_command : Formatter E → Bool → CommandType → Action (Buffered S) E (Option Text)
  unfolding allocated
  new_command f has_cluster type st w =
      let (cmd, e) = f.format type w.outside in
      if has_cluster
      then (ok cmd, record st { buffers = allocated type cmd st.buffers }, record w { outside = e })
      else (throw invalid_argument, st, w)

module _ {E : Type 0} (h : Hiredis E) (c : ConnectionContainer E)
    (user_moved : ℕ → Action (Cluster c.State) E (Unit {0})) (f : Formatter E) where
  -- `process` on the buffer. A null pointer with a length of -1 is outside what hiredis takes.
  process_buffer : Text → Option Text → Action (Cluster c.State) E (Option RedisReply)
  process_buffer key none = do con ← get_connection c key; lift fault
  process_buffer key (some cmd) = process h c user_moved key cmd

  -- `HiredisCommand( cluster_p, key, … ).process()`
  unfoldable pub temporary_command :
      Bool → CommandType → Text → Action (Buffered c.State) E (Option RedisReply)
  unfolding new_command at_end destroy on_cluster process_buffer
  temporary_command has_cluster type key = do
    cmd ← new_command f has_cluster type
    λ st w. at_end (destroy type cmd) (on_cluster (process_buffer key cmd) st w)

  -- The end of a command, with the buffers `buffers` behind a return or a throw.
  abbrev pub buffers_kept :
      CommandType
      → List CommandType
      → Outcome (Option RedisReply) × Cluster c.State × World E
      → Outcome (Option RedisReply) × Buffered c.State × World E
  buffers_kept type buffers (ok r, cl, w) = (ok r, record { cluster = cl; buffers = buffers }, w)
  buffers_kept type buffers (throw x, cl, w) =
      (throw x, record { cluster = cl; buffers = buffers }, w)
  buffers_kept type buffers (fault, cl, w) =
      (fault, record { cluster = cl; buffers = type ∷ buffers }, w)
  buffers_kept type buffers (blocked, cl, w) =
      (blocked, record { cluster = cl; buffers = type ∷ buffers }, w)

  module _ (key cmd : Text) where
    ended :
        (type : CommandType) (buffers : List CommandType)
        (t : Outcome (Option RedisReply) × Cluster c.State × World E)
        → at_end
            (destroy type (some cmd))
            (t.0, record { cluster = t.1; buffers = type ∷ buffers }, t.2)
          ≡ buffers_kept type buffers t
    unfolding at_end destroy free_with released freed_to same_type
    ended sds buffers (ok r, cl, w) = refl
    ended sds buffers (throw r, cl, w) = refl
    ended sds buffers (fault, cl, w) = refl
    ended sds buffers (blocked, cl, w) = refl
    ended formatted_string buffers (ok r, cl, w) = refl
    ended formatted_string buffers (throw r, cl, w) = refl
    ended formatted_string buffers (fault, cl, w) = refl
    ended formatted_string buffers (blocked, cl, w) = refl

    -- If the arguments are formatted to `cmd`, then the temporary object does what `command` does
    -- with `cmd`, by either constructor, and with a cluster or a null pointer to one; behind a return
    -- and behind a throw just the buffers from before are allocated, so its own buffer was freed
    -- once, by the function of its own allocator.
    pub temporary_command-command :
        (type : CommandType) (has_cluster : Bool) (e : E) (st : Buffered c.State) (w : World E)
        → f.format type w.outside ≡ (some cmd, e)
        → temporary_command has_cluster type key st w
          ≡ buffers_kept type st.buffers (
              command h c user_moved has_cluster key cmd st.cluster
                (if has_cluster then record w { outside = e } else w))
    unfolding temporary_command new_command command allocated on_cluster process_buffer
    temporary_command-command type true e st w formatted = rw formatted (ended type st.buffers _)
    temporary_command-command type false e st w formatted = refl
