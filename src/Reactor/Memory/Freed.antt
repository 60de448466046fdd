-- ===== src/Reactor/Memory/Freed.antt =====
-- When a port is there no more.
use embedded_device_forwarde.Prelude.{◌≡◌, [], true, some}
use embedded_device_forwarde.Config.Types.{Port, is_client}
use embedded_device_forwarde.Reactor.Memory.{Addr, Memory, PtrEvent, pointer_of}

-- The event that a port does not outlive: the end of its own connection, which was accepted, and which
-- the table still has.
pub record IsItsEnd (ev : PtrEvent) (m : Memory) (a : Addr) (p : Port) : Type 0 where
  pub own : ev.ptr ≡ a
  pub client : is_client p.kind ≡ true
  pub ended : ev.bytes ≡ []
  pub listed : pointer_of p.fd m.table ≡ some a
