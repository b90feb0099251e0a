-- ===== src/Master/Status.antt =====
-- `master_status_event` of src/master/master_status.c: a child tells that it is taken or available.
pub mod Update
pub mod Told
pub mod Fixtures
use nowra.Base.{
  ℕ, zero, suc, ◌+◌, Bool, true, false, not, ◌&&◌, ◌||◌, Option, none, some, List, [], ◌∷◌, ltb,
  ◌==◌, if◌then◌else◌, ℤ, pos, negsuc, incr, decr, ltb_ℤ, eqb_ℤ, Outcome, ok, abort, panic, ◌>>=◌,
}
use nowra.Events.Kernel.{Epoll}
use nowra.Master.Table.{Proc, ChildTable, stat_taken, stat_avail}
use nowra.Master.{World, put_proc, find_proc, master_avail_more, master_avail_less}

-- `MASTER_STATUS` as it comes through the pipe, and what `read` returned.
pub record Message : Type 0 where
  pub n : ℤ
  pub pid : ℕ
  pub avail : ℤ

module _ (ep : Epoll) (ct : ChildTable) where
  abbrev Master : Type 0
  Master = World ep ct

  -- The switch at the end of `master_status_event`.
  take_status : ℕ → Proc → ℤ → Master → Outcome Master
  take_status s p avail w =
      if eqb_ℤ avail stat_avail
      then (let used = record p { use_count = p.use_count + 1 } in
          master_avail_more ep ct s used (put_proc ep ct used w))
      else if eqb_ℤ avail stat_taken
      then master_avail_less ep ct s p w
      else ok w

  -- What follows the switch on `read`, with the child that `binhash_find` returned.
  update_status : ℕ → Option Proc → ℤ → Master → Outcome Master
  update_status s none avail w = ok w
  update_status s (some p) avail w =
      if not (p.serv == s)
      then abort (panic "%s: pointer corruption: %p != %p")
      else if eqb_ℤ p.avail avail
      then ok w
      else take_status s p avail w

  -- `master_status_event`; a message has 8 bytes.
  unfoldable pub master_status_event : (event : ℕ) → Message → ℕ → Master → Outcome Master
  unfolding update_status take_status
  master_status_event event m s w =
      if event == 0 || eqb_ℤ m.n (negsuc 0)
      then ok w
      else if eqb_ℤ m.n (pos 0)
      then abort (panic "%s: read EOF status")
      else if not (eqb_ℤ m.n (pos 8))
      then ok w
      else update_status s (find_proc ep ct m.pid w) m.avail w
