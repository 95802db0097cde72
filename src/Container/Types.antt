-- ===== src/Container/Types.antt =====
-- The typedefs of `Cluster` that its containers share.
use cpp_hiredis_cluster.Base.{ℕ, Bool, Option, ltb}
use cpp_hiredis_cluster.Text.{Text}
use cpp_hiredis_cluster.Effect.Monad.{Conn}

pub record SlotRange : Type 0 where
  pub first : ℕ
  pub second : ℕ

-- `SlotComparator`
abbrev pub slot_less : SlotRange → SlotRange → Bool
slot_less a b = ltb a.first b.first

abbrev pub SlotConnection : Type 0
SlotConnection = SlotRange × Conn

-- A host connection may hold a null pointer.
abbrev pub HostConnection : Type 0
HostConnection = Text × Option Conn
