-- ===== src/Runtime/Pid.antt =====
-- runtime.go: the number of a started process.
use thrive.Prelude.{
  ℕ, ◌<◌, ◌≡◌, refl, ◌⊎◌, inl, inr, Bool, true, false, not, List, Text, is_empty, Bool-cases,
  if◌then◌else◌,
}
use thrive.Runtime.{
  Host, Machine, ContainerConfig, Process, Spawned, spawned, not_permitted, spawn_failed,
  inject_secrets, pty_failed,
}
use thrive.Runtime.Launch.{
  Launch, launched, refused, open_terminal, fall_back, start_process, release_binds, fill_root,
  launch_in, launch, process_of, effect,
}

abbrev pub IsSpawned : Spawned → Type 0
IsSpawned (spawned pid) = 0 < pid
IsSpawned not_permitted = Unit
IsSpawned spawn_failed = Unit

-- The number of a process is positive.
pub record IsHost {H : Type 0} (host : Host H) : Type 0 where
  pub positive : (p : Process) (h : H) → IsSpawned (host.spawn p h).1

abbrev pub IsLaunch : Launch → Type 0
IsLaunch (launched l) = 0 < l.pid
IsLaunch (refused e) = Unit

Spawned-cases :
    (result : Spawned)
    → ((pid : ℕ) × (result ≡ spawned pid)) ⊎ (result ≡ not_permitted) ⊎ (result ≡ spawn_failed)
Spawned-cases (spawned pid) = inl (pid, refl)
Spawned-cases not_permitted = inr (inl refl)
Spawned-cases spawn_failed = inr (inr refl)

-- Both branches of a test.
if-IsLaunch :
    {H : Type 0} (b : Bool) (x y : Machine H × Launch)
    → IsLaunch x.1
    → IsLaunch y.1
    → IsLaunch (if b then x else y).1
if-IsLaunch true x y h k = h
if-IsLaunch false x y h k = k

module _ {H : Type 0} (host : Host H) (law : IsHost host) where
  fall_back-IsLaunch :
      (rootfs : Text) (p : Process) (m : Machine H) → IsLaunch (fall_back host rootfs p m).1
  unfolding fall_back
  fall_back-IsLaunch rootfs p m =
      let opened = open_terminal host p.on_pty m in
      let again : Process = record p { new_namespaces = false } in
      let known = law.positive again opened.0.host in
      elim (Bool-cases opened.1) [
        | inr closed ↦ rw closed tt
        | inl ok ↦ elim (Spawned-cases (host.spawn again opened.0.host).1) [
          | inl (pid, e) ↦ rw (ok, e) (rw e at known)
          | inr (inl e) ↦ rw (ok, e) tt
          | inr (inr e) ↦ rw (ok, e) tt
        ]
      ]

  start_process-IsLaunch :
      (rootfs : Text) (p : Process) (m : Machine H) → IsLaunch (start_process host rootfs p m).1
  unfolding start_process
  start_process-IsLaunch rootfs p m =
      let known = law.positive p m.host in
      elim (Spawned-cases (host.spawn p m.host).1) [
        | inl (pid, e) ↦ rw (e, start_process) (rw e at known)
        | inr (inr e) ↦ rw (e, start_process) tt
        | inr (inl e) ↦
            rw (e, start_process)
              (if-IsLaunch p.new_namespaces _ _ (fall_back-IsLaunch rootfs p _) tt)
      ]

  release_binds-IsLaunch :
      (binds : List Text) (p : Machine H × Launch)
      → IsLaunch p.1
      → IsLaunch (release_binds host binds p).1
  unfolding release_binds
  release_binds-IsLaunch binds (m, refused e) h = tt
  release_binds-IsLaunch binds (m, launched l) h = h

  launch_in-IsLaunch :
      (id rootfs : Text) (cfg : ContainerConfig) (m : Machine H)
      → IsLaunch (launch_in host id rootfs cfg m).1
  unfolding launch_in
  launch_in-IsLaunch id rootfs cfg m =
      let p = process_of host rootfs cfg m in
      let filled = fill_root host id rootfs cfg m in
      let opened = open_terminal host cfg.tty filled.0 in
      let injected =
        if is_empty cfg.secrets
        then opened.0
        else effect host (inject_secrets id cfg.secrets) opened.0 in
      if-IsLaunch (not opened.1) (opened.0, refused pty_failed)
        (release_binds host filled.1 (start_process host rootfs p injected)) tt
        (release_binds-IsLaunch filled.1 (start_process host rootfs p injected)
          (start_process-IsLaunch rootfs p injected))

  pub launch-IsLaunch :
      (id : Text) (cfg : ContainerConfig) (m : Machine H) → IsLaunch (launch host id cfg m).1
  unfolding launch
  launch-IsLaunch id cfg m = launch_in-IsLaunch id _ cfg _
