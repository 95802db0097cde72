-- ===== src/Process.antt =====
-- include/hiredisprocess.h: what a reply means for the command that it answers.
pub mod Redirect
pub mod Critical
use cpp_hiredis_cluster.Base.{
  ℕ, ◌+◌, Bool, true, false, not, ◌&&◌, ◌||◌, List, [], ◌∷◌, Option, none, some, ◌==◌,
  if◌then◌else◌,
}
use cpp_hiredis_cluster.Text.{
  Text, codes, npos, size_add, size_sub, find_char, find, substr, c_string,
}
use cpp_hiredis_cluster.Effect.Exception.{
  Exception, cluster_down, disconnected, logic_error, std_out_of_range,
}
use cpp_hiredis_cluster.Effect.Reply.{Reply, RedisReply}
use cpp_hiredis_cluster.Effect.Reply
use cpp_hiredis_cluster.Effect.Monad.{
  Outcome, ok, throw, fault, blocked, Conn, Hiredis, World, Action, after, pure, raise, lift, ◌>>=◌,
  ◌>>◌, reads,
}
use cpp_hiredis_cluster.Effect.Calls.{throw_with}

pub data ProcessState : Type 0 where
  moved ask clusterdown ready failed : ProcessState

-- `substr` where a bad position throws.
host_and_port : Option Text → Option Text → Outcome (Text × Text)
host_and_port none port = throw std_out_of_range
host_and_port (some host) none = throw std_out_of_range
host_and_port (some host) (some port) = ok (host, port)

-- The texts at the two positions.
unfoldable pub address_at : Text → ℕ → ℕ → Outcome (Text × Text)
unfolding host_and_port
address_at error host_position port_position =
    if not (host_position == npos) && not (port_position == npos)
    then host_and_port
        (substr error host_position (size_sub (size_sub port_position host_position) 1))
        (substr error port_position npos)
    else throw (logic_error (codes "error while parsing host port in redis redirection reply"))

unfoldable pub parse_host_port : Text → Outcome (Text × Text)
parse_host_port error =
    let host_position = size_add (find_char error b' ' (size_add (find_char error b' ' 0) 1)) 1 in
    let port_position = size_add (find_char error b':' host_position) 1 in
    address_at error host_position port_position

-- The state, with `result_host` and `result_port`.
pub record Processed : Type 0 where
  pub state : ProcessState
  pub host : Text
  pub port : Text

redirected : ProcessState → Outcome (Text × Text) → Outcome Processed
redirected state (ok (host, port)) = ok (record { state = state; host = host; port = port })
redirected state (throw e) = throw e
redirected state fault = fault
redirected state blocked = blocked

not_redirected : ProcessState → Processed
not_redirected state = record { state = state; host = []; port = [] }

process_error : Text → Outcome Processed
unfolding redirected not_redirected
process_error error =
    if find (codes "ASK") error 0 == 0
    then redirected ask (parse_host_port error)
    else if find (codes "MOVED") error 0 == 0
    then redirected moved (parse_host_port error)
    else if find (codes "CLUSTERDOWN") error 0 == 0
    then ok (not_redirected clusterdown)
    else ok (not_redirected ready)

unfoldable pub process_result : Reply → Outcome Processed
unfolding process_error not_redirected
process_result (Reply.error text) = process_error text
process_result reply = ok (not_redirected ready)

-- `string(reply->str).find("CLUSTERDOWN") != string::npos`
unfoldable pub mentions_clusterdown : Text → Bool
mentions_clusterdown text = not (find (codes "CLUSTERDOWN") (c_string text) 0 == npos)

-- `con != NULL && con->err != 0`
unfoldable pub is_broken : {E : Type 0} → Hiredis E → Option Conn → E → Bool
is_broken h none e = false
is_broken h (some c) e = h.has_error c e

module _ {S E : Type 0} (h : Hiredis E) where
  -- The tests of `checkCritical` on a reply that can be read.
  unfoldable pub check_reply : RedisReply → Reply → Bool → Bool → Text → Action S E (Unit {0})
  check_reply r (Reply.error text) error_critical free_reply_obj error =
      let owned = if free_reply_obj then some r else none in
      if error_critical
      then throw_with owned (logic_error error)
      else if mentions_clusterdown text
      then throw_with owned cluster_down
      else pure tt
  check_reply r value error_critical free_reply_obj error = pure tt

  check_pointer : Option RedisReply → Bool → Bool → Text → Action S E (Unit {0})
  unfolding check_reply
  check_pointer none error_critical free_reply_obj error = lift fault
  check_pointer (some r) error_critical free_reply_obj error =
      check_reply r r.value error_critical free_reply_obj error

  unfoldable pub check_critical :
      Option RedisReply → Bool → Bool → Text → Option Conn → Action S E (Unit {0})
  unfolding check_pointer is_broken
  check_critical reply error_critical free_reply_obj error con = do
    broken ← reads (is_broken h con)
    if broken
        then raise (disconnected [])
        else check_pointer reply error_critical free_reply_obj error
