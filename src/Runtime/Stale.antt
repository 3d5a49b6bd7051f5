-- ===== src/Runtime/Stale.antt =====
-- runtime.go: a signal to a container whose process has ended.
use thrive.Prelude.{◌≡◌, ℤ, false, some, arith, ◌==◌}
use thrive.Runtime.{Host, World, Reaper, ContainerState, ExitCode, load_state, send_signal}
use thrive.Runtime.Attach.{call}
use thrive.Runtime.Restart.{may_restart}
use thrive.Runtime.Exit.{restarts_of, try_restart, finish, reaped, reap, stopped_state}
use thrive.Runtime.Calls.{kill}
use thrive.Runtime.Reaped.{Has, finish_lem}

module _ {H : Type 0} (host : Host H) where
  kill_lem :
      (r : Reaper) (st : ContainerState) (signal : ℤ) (w : World H)
      → load_state r.id w ≡ some st
      → (st.pid == 0) ≡ false
      → (kill host r.id signal w).0.machine ≡ (call host (send_signal st.pid signal) w.machine).0
  unfolding kill
  kill_lem r st signal w at alive = rw (at, kill) (ground (arith, alive))

  -- When the process of a container that has a directory ends, and is not started again, a signal to the container
  -- still goes to the number that the process had, although the process is gone.
  pub kill-reap :
      (r : Reaper) (code : ExitCode) (signal : ℤ) (w : World H)
      → Has r.id w
      → may_restart r.config.restart_policy code (restarts_of r.id w) ≡ false
      → (r.state.pid == 0) ≡ false
      → let after = reap host r code w in
        (kill host r.id signal after).0.machine
        ≡ (call host (send_signal r.state.pid signal) after.machine).0
  unfolding reap try_restart reaped
  kill-reap r code signal w has refused alive =
      let (at, apart) = finish_lem host r code r.state w has in
      rw refused
        (kill_lem r (stopped_state code r.state) signal (finish host r code r.state w) at alive)
