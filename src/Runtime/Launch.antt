-- ===== src/Runtime/Launch.antt =====
-- The process of a starting container: the part of `Start` of runtime.go from the mount of the image
-- to the cgroup. Its log file is left to the host; a permission error is what isPermissionError accepts.
use thrive.Prelude.{
  ℕ, ◌==◌, Bool, true, false, not, ◌&&◌, ◌||◌, none, some, List, [], ◌∷◌, ◌++◌, Text, text,
  is_empty, ltb, if◌then◌else◌,
}
use thrive.Compose.Engine.{Mount}
use thrive.Runtime.{
  Host, Machine, ContainerConfig, ConfigMount, ResourceLimits, Process, Spawned, spawned,
  not_permitted, spawn_failed, RuntimeError, pty_failed, exec_failed, HostCall, write_resolv_conf,
  make_target, bind_mount, unmount_detach, write_config, inject_secrets, new_cgroup, apply_cgroup,
  set_memory_limit, set_cpu_quota, set_cpu_shares, set_pids_limit,
}
use thrive.Runtime.Command.{resolve_command, with_goroot}
use thrive.Runtime.Attach.{call}

-- What a started process is: its number, whether it has namespaces of its own, and its root.
pub record Launched : Type 0 where
  pub pid : ℕ
  pub has_namespaces : Bool
  pub rootfs : Text

pub data Launch : Type 0 where
  launched : Launched → Launch
  refused : RuntimeError → Launch

-- strings.Contains(s, "..")
unfoldable pub has_dots : Text → Bool
has_dots [] = false
has_dots (c ∷ []) = false
has_dots (c ∷ d ∷ s) = let rest = has_dots (d ∷ s) in (c == b'.' && d == b'.') || rest

-- filepath.IsAbs(target) && !strings.Contains(target, "..")
unfoldable pub is_target : Text → Bool
is_target [] = false
is_target (c ∷ s) = (c == b'/') && not (has_dots (c ∷ s))

module _ {H : Type 0} (host : Host H) where
  abbrev pub effect : HostCall → Machine H → Machine H
  effect c m = (call host c m).0

  -- The mount of a source, and the mounts made so far.
  unfoldable pub bind : Text → Text → Machine H × List Text → Machine H × List Text
  bind source dest (m, binds) =
      let (next, ok) = call host (bind_mount source dest) (effect (make_target source dest) m) in
      (next, if ok then binds ++ dest ∷ [] else binds)

  unfoldable pub bind_volumes : Text → List Mount → Machine H × List Text → Machine H × List Text
  bind_volumes rootfs [] p = p
  bind_volumes rootfs (mount ∷ mounts) p =
      bind_volumes rootfs mounts (bind mount.source (host.join (rootfs ∷ mount.destination ∷ [])) p)

  abbrev pub config_path : Text → Text → Text
  config_path id target =
      host.join (text "/run/thrive/containers" ∷ id ∷ text "configs" ∷ target ∷ [])

  -- A config object is written to a file of the host, which is mounted at its target.
  unfoldable pub bind_config :
      Text → Text → ConfigMount → Machine H × List Text → Machine H × List Text
  bind_config id rootfs mount (m, binds) =
      if not (is_target mount.target)
      then (m, binds)
      else elim (host.swarm_config mount.source m.host) [
        | none ↦ (m, binds)
        | some content ↦
            let (written, ok) = call host (write_config id mount.target content) m in
            let bound =
              bind (config_path id mount.target) (host.join (rootfs ∷ mount.target ∷ []))
                (written, binds) in
            if ok then bound else (written, binds)
      ]

  unfoldable pub bind_configs :
      Text → Text → List ConfigMount → Machine H × List Text → Machine H × List Text
  bind_configs id rootfs [] p = p
  bind_configs id rootfs (mount ∷ mounts) p =
      bind_configs id rootfs mounts (bind_config id rootfs mount p)

  -- The mounts in the root, where there is one.
  unfoldable pub fill_root : Text → Text → ContainerConfig → Machine H → Machine H × List Text
  fill_root id rootfs cfg m =
      let volumes = bind_volumes rootfs cfg.mounts (effect (write_resolv_conf rootfs) m, []) in
      if is_empty rootfs then (m, []) else bind_configs id rootfs cfg.configs volumes

  -- setupPTY, where the container asks for one.
  unfoldable pub open_terminal : Bool → Machine H → Machine H × Bool
  open_terminal tty m =
      let (next, ok) = host.open_pty m.host in
      if tty then (record m { host = next }, ok) else (m, true)

  abbrev pub spawn_in : Process → Machine H → Machine H × Spawned
  spawn_in p m = (record m { host = (host.spawn p m.host).0 }, (host.spawn p m.host).1)

  -- The second attempt, with the root alone.
  unfoldable pub fall_back : Text → Process → Machine H → Machine H × Launch
  fall_back rootfs p m =
      let (opened, ok) = open_terminal p.on_pty m in
      let (next, result) = spawn_in (record p { new_namespaces = false }) opened in
      if not ok then (opened, refused pty_failed) else (
        next,
        elim result [
          | spawned pid ↦ launched (record { pid = pid; has_namespaces = false; rootfs = rootfs })
          | not_permitted ↦ refused exec_failed
          | spawn_failed ↦ refused exec_failed
        ],
      )

  unfoldable pub start_process : Text → Process → Machine H → Machine H × Launch
  start_process rootfs p m =
      let next = (spawn_in p m).0 in
      elim (spawn_in p m).1 [
        | spawned pid ↦ (
          next,
          launched (record { pid = pid; has_namespaces = p.new_namespaces; rootfs = rootfs }),
        )
        | not_permitted ↦
            if p.new_namespaces then fall_back rootfs p next else (next, refused exec_failed)
        | spawn_failed ↦ (next, refused exec_failed)
      ]

  unfoldable pub unmount_all : List Text → Machine H → Machine H
  unmount_all [] m = m
  unmount_all (dest ∷ binds) m = unmount_all binds (effect (unmount_detach dest) m)

  -- The mounts leave the parent's namespace if the process has its own.
  unfoldable pub release_binds : List Text → Machine H × Launch → Machine H × Launch
  release_binds binds (m, refused e) = (m, refused e)
  release_binds binds (m, launched l) =
      (if l.has_namespaces then unmount_all binds m else m, launched l)

  unfoldable pub process_of : Text → ContainerConfig → Machine H → Process
  process_of rootfs cfg m =
      let argv = resolve_command host rootfs cfg.command m.host in
      record {
        path = argv.binary;
        args = argv.args;
        env = with_goroot argv.binary (host.read_env cfg.image m.host ++ cfg.env);
        chroot = rootfs;
        new_namespaces = not (host.inside_vm m.host);
        on_pty = cfg.tty;
      }

  -- From the mounts to the running process.
  unfoldable pub launch_in : Text → Text → ContainerConfig → Machine H → Machine H × Launch
  launch_in id rootfs cfg m =
      let p = process_of rootfs cfg m in
      let (filled, binds) = fill_root id rootfs cfg m in
      let (opened, ok) = open_terminal cfg.tty filled in
      let injected =
        if is_empty cfg.secrets then opened else effect (inject_secrets id cfg.secrets) opened in
      if not ok
      then (opened, refused pty_failed)
      else release_binds binds (start_process rootfs p injected)

  -- An image that cannot be mounted leaves the container without a root of its own.
  unfoldable pub launch : Text → ContainerConfig → Machine H → Machine H × Launch
  launch id cfg m =
      let (mounted, root) = host.mount_image cfg.image id m.host in
      let rootfs : Text = elim root [ none ↦ [] | some path ↦ path ] in
      launch_in id rootfs cfg (record m { host = mounted })

  abbrev pub limit_if : ℕ → HostCall → Machine H → Machine H
  limit_if limit c m = if ltb 0 limit then effect c m else m

  unfoldable pub enter_cgroup : Text → ℕ → ResourceLimits → Machine H → Machine H
  enter_cgroup id pid limits m =
      let (made, ok) = call host (new_cgroup id) m in
      let applied = effect (apply_cgroup id pid) made in
      let memory = limit_if limits.memory_limit (set_memory_limit id limits.memory_limit) applied in
      let quota = limit_if limits.cpu_quota (set_cpu_quota id limits.cpu_quota) memory in
      let shares = limit_if limits.cpu_shares (set_cpu_shares id limits.cpu_shares) quota in
      let pids = limit_if limits.pids_limit (set_pids_limit id limits.pids_limit) shares in
      if ok then pids else made
