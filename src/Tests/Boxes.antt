-- ===== src/Tests/Boxes.antt =====
-- A container that is started, and serves a task with one bind, which leaves a file and is killed.
use libsbox.Base.{
  ℕ, ◌≡◌, refl, pos, minus_one, Bool, true, false, List, [], ◌∷◌, ◌++◌, Option, none, some, codes,
  replicate, if◌then◌else◌, ok, err, ◌==◌,
}
use libsbox.Memory.{c_string}
use libsbox.Bind
use libsbox.Bind.{
  System, mount, set_paths, do_mount, mount_directory, mount_existing, umount_if_mounted,
  mount_flags,
}
use libsbox.Bind.Stack.{umount_all}
use libsbox.Cgroup.{construct, destruct}
use libsbox.Cgroup.Files
use libsbox.Utils.{write_file}
use libsbox.PlainVector
use libsbox.Container.WaitForSlave.{
  wait_for_slave, wait_loop, kill_all, reap, measure, is_oom_killed,
}
use libsbox.Cgroup.Files.{KeepsTable}
use libsbox.Tests.Services.{kernel, initial}
use libsbox.Container.TaskData.{TaskData, BindData}
use libsbox.Container.Root
use libsbox.Container.Root.{Boot}
use libsbox.Container.Root.Mounts
use libsbox.Container.Serve
use libsbox.Container.Serve.{
  Host, Box, Round, Site, serve_round, mount_binds, load_bind, controllers, barrier_wait,
}
use libsbox.Container.Serve.Restored
use libsbox.Container.Serve.Cleaning
use libsbox.Container.Serve.Cleaning.{AllGiven}
use libsbox.Container.Start
use libsbox.Tests.Binds.{remove}
use libsbox.Tests.Confinement.{machine, groups_of}
use libsbox.Tests.Tasks.{fresh, wakes, world, measures}

-- Mounts, and whether there are files in every directory.
record Disk : Type 0 where
  points : List (List ℕ × ℕ)
  dirty : Bool

abbrev after_umount : Disk → Option (List (List ℕ × ℕ)) → Option Disk
after_umount s none = none
after_umount s (some ms) = some (record s { points = ms })

abbrev disk : System
disk = record {
  FsPath = List ℕ;
  path = λ p. p;
  is_absolute = λ p. true;
  relative_path = λ p. p;
  join = λ p q. p ++ q;
  parent_path = λ p. p;
  State = Disk;
  mounts = λ s. s.points;
  brought = λ s p. false;
  exists = λ s p. true;
  is_directory = λ s p. true;
  is_regular_file = λ s p. false;
  create_directories = λ s p. some s;
  open_file = λ s p. some s;
  close = λ s. some s;
  mount = λ s from to flags. some (record s { points = (to, flags) ∷ s.points });
  umount = λ s to. after_umount s (remove to s.points);
}

abbrev host : Host disk
host = record {
  entries = λ s dir. some (if s.dirty then codes "/a" ∷ [] else []);
  remove_all = λ s path. some (record s { dirty = false });
  within = λ p q. false;
  to_string = λ z. codes "7";
}

abbrev place : Box disk
place = record {
  id = pos 7;
  cgroup_root = codes "/cg";
  root = codes "/box";
  work_dir = codes "/box/work";
  tmp_dir = codes "/box/tmp";
}

abbrev one_bind : BindData
one_bind = record {
  inside = record { size = 5; cells = codes "/data" ++ (0 ∷ 0 ∷ []) };
  outside = record { size = 4; cells = codes "/srv" ++ (0 ∷ 0 ∷ []) };
  flags = 1;
}

abbrev bound : TaskData
bound = record fresh { binds = record { size = 1; slots = some one_bind ∷ replicate 9 none } }

abbrev task_round : Round disk
task_round = record {
  task = bound;
  ready = pos 0;
  forked = pos 7;
  started = minus_one;
  wakes = wakes;
  world = world;
  measures = measures;
  during = λ s. record s { dirty = true };
  done = pos 0;
}

abbrev site : Site disk machine groups_of host place
site = record {
  files = record { points = (codes "/box", 0) ∷ []; dirty = false };
  kernel = record { files = λ n. none; entered = λ q. false };
}

abbrev rounds : List (Round disk)
rounds = task_round ∷ task_round ∷ []

abbrev boot : Boot disk
boot = record {
  mount_none = λ s to fstype flags options.
      if flags == 0 then some (record s { points = (to, 0) ∷ s.points }) else some s;
  chmod = λ s path mode. some s;
}

abbrev started : Start.Start disk machine groups_of host place boot kernel
started = record { files = site.files; kernel = site.kernel; signals = initial }

-- The task_round of the test returns, with the mounts from before.
abbrev left_over :
    Serve.Run (TaskData × Site disk machine groups_of host place) → Option (List (List ℕ × ℕ))
left_over (ok r) = some r.1.files.points
left_over (err why) = none

round_returns :
    left_over (serve_round disk machine groups_of host place task_round site)
    ≡ some ((codes "/box", 0) ∷ [])
unfolding serve_round mount_binds load_bind controllers barrier_wait PlainVector.index c_string
    mount set_paths mount_existing mount_directory do_mount mount_flags umount_all umount_if_mounted
    construct destruct Files.write write_file wait_for_slave wait_loop kill_all reap measure
    is_oom_killed
round_returns = refl
