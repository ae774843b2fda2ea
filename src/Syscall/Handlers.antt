-- ===== src/Syscall/Handlers.antt =====
-- The handlers for pipes and semaphores: what a process sees of them.
use tpe2_so.Base.{ℕ, ◌+◌, ◌-◌, ◌^◌, ◌<◌, ◌≡◌, ◌≢◌, refl, false, some, arith, ◌==◌, if◌then◌else◌}
use tpe2_so.Scheduler.{Sched, add_fd, remove_fd, fd_local_to_global, max_fd}
use tpe2_so.NamedPipe.{Opening, failed, opened, open_pipe, close_file, negative}
use tpe2_so.NamedPipe.Creation.{OpenedPipe, open_pipe-OpenedPipe}
use tpe2_so.Syscall.{System, kernel_sem, sem_offset, sys_open_pipe, sys_close}

-- Every semaphore number of the kernel, those of the pipes and of the terminal included, is what
-- the handlers make of some number of a process.
kernel_sem_reached : (k : ℕ) → k < sem_offset → (id : ℕ) × (id < 2 ^ 32) × (kernel_sem id ≡ some k)
unfolding kernel_sem
kernel_sem_reached k h = (k + 2 ^ 32 - sem_offset, omega arith, ground arith)

-- Two numbers that the handlers accept stand for different semaphores.
kernel_sem_injective :
    (a b k : ℕ) → a < 2 ^ 32 → b < 2 ^ 32 → kernel_sem a ≡ some k → kernel_sem b ≡ some k → a ≡ b
unfolding kernel_sem
kernel_sem_injective a b k ha hb ea eb = ground arith

remove_fd-local :
    (s : Sched) (fd x : ℕ)
    → fd < max_fd
    → fd_local_to_global (remove_fd s fd) x
      ≡ (if x == fd then 2 ^ 64 - 1 else fd_local_to_global s x)
unfolding fd_local_to_global remove_fd
remove_fd-local s fd x h = ground arith

-- Where descriptor `local` of a process stands for another number `fd`, below 255, and `closeFd`
-- succeeds on `fd`: after the system call `local` still stands for `fd`, and it is the process's
-- descriptor `fd` that was cleared.
pub sys_close-keeps_local :
    (local fd : ℕ) (s : System)
    → fd_local_to_global s.sched local ≡ fd
    → local ≢ fd
    → fd < max_fd
    → negative (close_file s.files fd).1 ≡ false
    → (fd_local_to_global (sys_close local s).0.sched local ≡ fd)
      × (fd_local_to_global (sys_close local s).0.sched fd ≡ 2 ^ 64 - 1)
unfolding sys_close
sys_close-keeps_local local fd s is ne h ok =
    let at_local = remove_fd-local s.sched fd local h in
    let at_fd = remove_fd-local s.sched fd fd h in
    rw (is, ok) (ground (arith, at_local, is), ground (arith, at_fd))

add_fd-local :
    (s : Sched) (fd x : ℕ)
    → fd < max_fd
    → fd_local_to_global (add_fd s fd) x ≡ (if x == fd then fd else fd_local_to_global s x)
unfolding fd_local_to_global add_fd
add_fd-local s fd x h = ground arith

-- Where `sys_openPipe` returns two descriptors: they stand for the two ends of a new empty pipe, and
-- the process has both under their own numbers; its other descriptors are as before.
pub sys_open_pipe-Opened :
    (a r w : ℕ) (s : System)
    → (sys_open_pipe a s).1 ≡ some (r, w)
    → OpenedPipe s.files (sys_open_pipe a s).0.files a r w
      × ((x : ℕ)
          → fd_local_to_global (sys_open_pipe a s).0.sched x
            ≡ (if x == w then w else (if x == r then r else fd_local_to_global s.sched x)))
unfolding sys_open_pipe
sys_open_pipe-Opened a r w s e = go (open_pipe a s.files) refl
  where
    go :
        (o : Opening)
        → open_pipe a s.files ≡ o
        → OpenedPipe s.files (sys_open_pipe a s).0.files a r w
          × ((x : ℕ)
              → fd_local_to_global (sys_open_pipe a s).0.sched x
                ≡ (if x == w then w else (if x == r then r else fd_local_to_global s.sched x)))
    go (failed f calls) q = absurd (let e' = rw (q, sys_open_pipe) at e in cc)
    go (opened f r' w' calls) q =
        let e' = rw (q, sys_open_pipe) at e in
        let q' : open_pipe a s.files ≡ opened f r w calls = cc in
        let o = open_pipe-OpenedPipe a s.files f r w calls q' in
        rw (q', sys_open_pipe)
          (
            o,
            λ x. ground (
              arith,
              add_fd-local (add_fd s.sched r) w x o.write_in,
              add_fd-local s.sched r x o.read_in,
            ),
          )
