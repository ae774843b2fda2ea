-- ===== src/Syscall/Table.antt =====
-- The table of the system calls in Kernel/interruptions/syscallHandler.c.
use tpe2_so.Base.{ℕ, zero, suc, Option, none, some, List, [], ◌∷◌}

-- The entries of `syscalls`, in their order.
pub data Handler : Type 0 where
  read write time set_terminal_raw_mode font print_color clear_screen screen_data : Handler
  paint_rect ticks beeper memstate alloc free exit get_pid kill change_priority : Handler
  block_process unblock_process yield open_pipe close mk_fifo open_fifo : Handler
  set_background map_std_fds rm_fifo list_pipes list_process sem_open sem_wait : Handler
  sem_post sem_close list_semaphore createprocess getbackground : Handler

abbrev pub syscalls : List Handler
syscalls =
    Handler.read ∷ Handler.write ∷ Handler.time ∷ Handler.set_terminal_raw_mode ∷ Handler.font
    ∷ Handler.print_color ∷ Handler.clear_screen ∷ Handler.screen_data ∷ Handler.paint_rect
    ∷ Handler.ticks ∷ Handler.beeper ∷ Handler.memstate ∷ Handler.alloc ∷ Handler.free
    ∷ Handler.exit ∷ Handler.get_pid ∷ Handler.kill ∷ Handler.change_priority
    ∷ Handler.block_process ∷ Handler.unblock_process ∷ Handler.yield ∷ Handler.open_pipe
    ∷ Handler.close ∷ Handler.mk_fifo ∷ Handler.open_fifo ∷ Handler.set_background
    ∷ Handler.map_std_fds ∷ Handler.rm_fifo ∷ Handler.list_pipes ∷ Handler.list_process
    ∷ Handler.sem_open ∷ Handler.sem_wait ∷ Handler.sem_post ∷ Handler.sem_close
    ∷ Handler.list_semaphore ∷ Handler.createprocess ∷ Handler.getbackground ∷ []

-- `syscallDispatcher` up to the call; `none` is a number behind the table, which the code does not
-- test for.
unfoldable pub dispatch : List Handler → ℕ → Option Handler
dispatch [] rax = none
dispatch (h ∷ table) zero = some h
dispatch (h ∷ table) (suc rax) = dispatch table rax
