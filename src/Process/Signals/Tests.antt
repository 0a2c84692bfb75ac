-- ===== src/Process/Signals/Tests.antt =====
-- kernel/process/signal.c: concrete runs.
use char_os.Base.{ℕ, ◌≡◌, refl, true, none, [], ◌∷◌, update, scan}
use char_os.Base.Bits.{bit_not}
use char_os.Process.Task.{running, blocked}
use char_os.Process.Signals.{SigTask, Registers, signal_send, send_from, signal_deliver, delivers}

-- A task with signals 1 and 10 pending and handlers for 10 and 17.
abbrev waiting : SigTask
waiting = record {
  proc = record {
    pid = 4;
    parent_pid = 1;
    state = blocked;
    exit_status = 0;
    sleep_until = 0;
    files_open = true;
  };
  sig_handlers = update (update (λ _. 0) 10 4096) 17 8192;
  sig_pending = 1026;
  user_esp = 40000;
}

abbrev user_regs : Registers
user_regs = record { eip = 500; cs = 27; eflags = 512; useresp = 40000; ss = 35 }

-- Signal 10 has a handler, signal 1 stays pending.
deliver_ten :
    signal_deliver waiting user_regs
    ≡ delivers 10
        (record waiting { sig_pending = 2; user_esp = 39968 })
        (record user_regs { eip = 4096; useresp = 39968 })
        (500 ∷ 27 ∷ 512 ∷ 40000 ∷ 35 ∷ 10 ∷ 0x1500000 ∷ 4096 ∷ [])
unfolding signal_deliver scan bit_not
deliver_ten = refl

-- Three tasks without a handler for signal 1; the current one is the second.
abbrev three : ℕ → SigTask
three i = record waiting { proc = record (waiting.proc) { pid = i; state = running } }

-- A signal to all ends the first, then the current task exits and the third does not get it.
broadcast_stops :
    (signal_send 1 3 (record { tasks = three; pending_sig = 0 }) none 1).tasks 2 ≡ three 2
unfolding signal_send send_from
broadcast_stops = refl
