-- ===== src/Effect/Exception.antt =====
-- include/clusterexception.h: the exceptions, their groups and their messages. Two exceptions of
-- the standard library, which some calls let through, stand beside them.
use cpp_hiredis_cluster.Base.{Bool, true, false, ◌++◌}
use cpp_hiredis_cluster.Text.{Text, codes}

pub data Exception : Type 0 where
  asking_failed moved_failed connection_failed node_search not_initialized : Exception
  cluster_down invalid_argument : Exception
  disconnected : Text → Exception
  logic_error : Text → Exception
  std_out_of_range std_invalid_argument : Exception

-- The base classes.
pub data Group : Type 0 where
  critical bad_state cluster standard : Group

unfoldable pub group : Exception → Group
group asking_failed = bad_state
group moved_failed = bad_state
group connection_failed = critical
group node_search = bad_state
group not_initialized = critical
group cluster_down = critical
group invalid_argument = cluster
group (disconnected reported) = critical
group (logic_error reason) = bad_state
group std_out_of_range = standard
group std_invalid_argument = standard

-- Does `catch (const ClusterException &)` catch it?
unfoldable pub is_cluster_exception : Exception → Bool
unfolding group
is_cluster_exception e = elim (group e) [ standard ↦ false | _ ↦ true ]

-- Does `dynamic_cast<const CriticalException *>` succeed?
unfoldable pub is_critical : Exception → Bool
unfolding group
is_critical e = elim (group e) [ critical ↦ true | _ ↦ false ]

-- `what()`, with the text of `strerror(errno)` where the constructor reads it.
unfoldable pub what : Text → Exception → Text
what errno asking_failed = codes "error while processing asking command"
what errno moved_failed = codes "error while processing asking command"
what errno connection_failed = codes "cluster connect failed: " ++ errno
what errno node_search = codes "node not found in cluster"
what errno not_initialized = codes "cluster have not been properly initialized"
what errno cluster_down = codes "cluster is going down"
what errno invalid_argument = codes "cluster invalid argument"
what errno (disconnected reported) = codes "cluster host disconnected"
what errno (logic_error reason) = reason
what errno std_out_of_range = codes "out of range"
what errno std_invalid_argument = codes "invalid argument"
