-- ===== src/Process/Signals/Deliver.antt =====
-- kernel/process/signal.c: which signal is delivered, and which stay pending.
use char_os.Base.{
  ℕ, ◌+◌, ◌*◌, ◌%◌, ◌^◌, ◌≡◌, ◌<◌, [], ◌∷◌, length, take, ap₂, sym, ◌∙◌, arith, true, false, not,
  ◌&&◌, ◌||◌, ◌==◌,
}
use char_os.Base.Bits.{bit, bit-bit_or, bit-pow, bit_and_pow-ne_zero}
use char_os.Process.Signals.{
  SigTask, Registers, sig_max, is_pending, set_pending, has_handler, deliverable, Delivery, nothing,
  delivers, notified,
}

pending-bit : (p sig : ℕ) → is_pending p sig ≡ bit p sig
pending-bit p sig = bit_and_pow-ne_zero p sig

-- Setting one adds it.
set-pending : (p sig k : ℕ) → is_pending (set_pending p sig) k ≡ (is_pending p k || k == sig)
set-pending p sig k =
    pending-bit (set_pending p sig) k
    ∙ bit-bit_or p (2 ^ sig) k
    ∙ ap₂ ◌||◌ (sym (pending-bit p k)) (bit-pow sig k ∙ ground arith)

-- What is said of a delivery.
pub Delivered : SigTask → Registers → Delivery → Type 0
Delivered t regs nothing = (k : ℕ) → k < sig_max → deliverable t k ≡ false
Delivered t regs (delivers sig u new frame) =
    (sig < sig_max)
    × (deliverable t sig ≡ true)
    × ((k : ℕ) → k < sig → deliverable t k ≡ false)
    × ((k : ℕ)
        → k < sig_max
        → is_pending u.sig_pending k ≡ (is_pending t.sig_pending k && not (k == sig)))
    × (u ≡ record t { sig_pending = u.sig_pending; user_esp = u.user_esp })
    × (new ≡ record regs { eip = t.sig_handlers sig; useresp = u.user_esp })
    × ((u.user_esp + 4 * length frame) % 2 ^ 32 ≡ t.user_esp % 2 ^ 32)
    × (u.user_esp < 2 ^ 32)
    × (take 6 frame ≡ regs.eip ∷ regs.cs ∷ regs.eflags ∷ regs.useresp ∷ regs.ss ∷ sig ∷ [])

-- A signal that has been noted for a task with a handler can be delivered.
notified-deliverable :
    (t : SigTask) (sig : ℕ) → has_handler t sig ≡ true → deliverable (notified sig t) sig ≡ true
notified-deliverable t sig h =
    ap₂ ◌&&◌ {y = true} (set-pending t.sig_pending sig sig ∙ ground arith) h
