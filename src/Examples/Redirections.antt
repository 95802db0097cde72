-- ===== src/Examples/Redirections.antt =====
-- include/hiredisprocess.h on redirections as Redis writes them, and on texts that are none.
use cpp_hiredis_cluster.Base.{◌≡◌, arith}
use cpp_hiredis_cluster.Text.{Text, codes}
use cpp_hiredis_cluster.Effect.Reply
use cpp_hiredis_cluster.Effect.Monad.{ok}
use cpp_hiredis_cluster.Process.{Processed, parse_host_port, process_result}
use cpp_hiredis_cluster.Process.Redirect.{
  parse_host_port-total, parse_host_port-redirection, parse_host_port_no_separator,
  process_result-total,
}

abbrev moved_text : Text
moved_text = codes "MOVED 3999 127.0.0.1:6381"

parse_host_port-total_example :
    (host : Text) × (port : Text) × (parse_host_port moved_text ≡ ok (host, port))
parse_host_port-total_example = parse_host_port-total moved_text (omega arith)

parse_host_port-redirection_example :
    parse_host_port moved_text ≡ ok (codes "127.0.0.1", codes "6381")
parse_host_port-redirection_example =
    parse_host_port-redirection (codes "MOVED") (codes "3999") (codes "127.0.0.1") (codes "6381")
      (ground arith) (ground arith) (ground arith) (omega arith)

parse_host_port_no_separator_example :
    parse_host_port (codes "MOVED") ≡ ok (codes "MOVED", codes "MOVED")
parse_host_port_no_separator_example =
    parse_host_port_no_separator (codes "MOVED") (ground arith) (ground arith) (omega arith)

process_result-total_example :
    (p : Processed) × (process_result (Reply.Reply.error moved_text) ≡ ok p)
process_result-total_example = process_result-total (Reply.Reply.error moved_text) (omega arith)
