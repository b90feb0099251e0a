-- ===== src/Master/Refresh/Deleted.antt =====
-- The loop of `master_delete_children` of src/master/master_spawn.c comes to its end.
use nowra.Events.Kernel.{Epoll}
use nowra.Master.Table.{ChildTable}
use nowra.Master.{World}

module _ (ep : Epoll) (ct : ChildTable) where
  abbrev Master : Type 0
  Master = World ep ct
