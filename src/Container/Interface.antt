-- ===== src/Container/Interface.antt =====
-- What `Cluster` asks of its `ConnectionContainer` template parameter.
use cpp_hiredis_cluster.Base.{ℕ}
use cpp_hiredis_cluster.Int.{ℤ}
use cpp_hiredis_cluster.Text.{Text}
use cpp_hiredis_cluster.Effect.Monad.{Conn, Action, Hiredis, pure}
use cpp_hiredis_cluster.Container.Types.{SlotRange, SlotConnection, HostConnection}
use cpp_hiredis_cluster.Container.{
  DefaultContainer, insert_slots, insert_host, get_connection, delete_connection, disconnect,
}

pub record ConnectionContainer (E : Type 0) : Type 1 where
  pub State : Type 0
  pub insert_slots : SlotRange → Text → ℤ → Action State E (Unit {0})
  pub insert_host : Text → Text → Action State E HostConnection
  pub get_connection : ℕ → Action State E SlotConnection
  pub release_slot : SlotConnection → Action State E (Unit {0})
  pub release_host : HostConnection → Action State E (Unit {0})
  pub delete_connection : Conn → Action State E (Unit {0})
  pub disconnect : Action State E (Unit {0})

-- `DefaultContainer`: releasing a connection does nothing.
abbrev pub default_container : {E : Type 0} → Hiredis E → ConnectionContainer E
default_container h = record {
  State = DefaultContainer;
  insert_slots = insert_slots h;
  insert_host = insert_host h;
  get_connection = get_connection h;
  release_slot = λ con. pure tt;
  release_host = λ con. pure tt;
  delete_connection = λ con s w. pure tt (delete_connection con s) w;
  disconnect = disconnect h;
}
