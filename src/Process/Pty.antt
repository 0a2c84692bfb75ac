-- ===== src/Process/Pty.antt =====
-- kernel/process/pty.c and include/process/pty.h: pseudo terminals with a line discipline. Each
-- operation runs under the terminal's lock. A character is its byte, below 256; the buffers of the
-- callers are not null, and what is copied into one is the list that is returned.
pub mod Line
pub mod Output
mod Tests
use char_os.Base.{
  ℕ, zero, suc, ◌+◌, ◌-◌, ◌%◌, ◌*◌, ◌^◌, Bool, true, false, not, ◌&&◌, ◌||◌, Option, none, some,
  List, [], ◌∷◌, ◌++◌, ◌==◌, ltb, leb, if◌then◌else◌, update, copy, scan, bit_and, length,
}

abbrev pub pty_max : ℕ
pty_max = 8

abbrev pub pty_ring : ℕ
pty_ring = 512

abbrev pub pty_line : ℕ
pty_line = 256

-- A buffer with its head, tail and count.
pub record Ring : Type 0 where
  pub buf : ℕ → ℕ
  pub head : ℕ
  pub tail : ℕ
  pub count : ℕ

-- `struct pty`
pub record Pty : Type 0 where
  pub used : Bool
  pub flags : ℕ
  pub in_raw : Ring
  pub canon : ℕ → ℕ
  pub canon_len : ℕ
  pub line_ready : Bool
  pub out : Ring

abbrev pub Ptys : Type 0
Ptys = ℕ → Pty

-- `flags & PTY_ICANON`, `PTY_ECHO` and `PTY_ONLCR`.
abbrev pub icanon : ℕ → Bool
icanon flags = not (bit_and flags 1 == 0)

abbrev pub echo : ℕ → Bool
echo flags = not (bit_and flags 2 == 0)

abbrev pub onlcr : ℕ → Bool
onlcr flags = not (bit_and flags 4 == 0)

-- A full ring drops the character.
unfoldable pub ring_push : Ring → ℕ → Ring
ring_push r c = if leb pty_ring r.count then r else record r {
  buf = update r.buf r.head c;
  head = (r.head + 1) % pty_ring;
  count = r.count + 1;
}

-- `none` is -1.
unfoldable pub ring_pop : Ring → Option ℕ × Ring
ring_pop r =
    if r.count == 0
    then (none, r)
    else (some (r.buf r.tail), record r { tail = (r.tail + 1) % pty_ring; count = r.count - 1 })

abbrev pub cleared : Ring → Ring
cleared r = record r { head = 0; tail = 0; count = 0 }

-- `memset(p, 0, sizeof(*p))`
abbrev pub zeroed : Pty
zeroed = record {
  used = false;
  flags = 0;
  in_raw = record { buf = λ i. 0; head = 0; tail = 0; count = 0 };
  canon = λ i. 0;
  canon_len = 0;
  line_ready = false;
  out = record { buf = λ i. 0; head = 0; tail = 0; count = 0 };
}

unfoldable pub pty_create : Ptys → ℕ → Ptys × Option ℕ
pty_create ps flags = elim (scan (λ i. not (ps i).used) 0 pty_max) [
  | none ↦ (ps, none)
  | some i ↦ (
    update ps i (record (ps i) {
      used = true;
      flags = flags;
      in_raw = cleared (ps i).in_raw;
      canon_len = 0;
      line_ready = false;
      out = cleared (ps i).out;
    }),
    some i,
  )
]

-- An operation on the terminal `id`, with -1 for a wrong one. (A negative `id` is wrong too.)
abbrev pub on_pty {ℓ} : {A : Type ℓ} → Ptys → ℕ → (Pty → Pty × A) → Ptys × Option A
on_pty ps id act =
    if ltb id pty_max && (ps id).used
    then (let (p, a) = act (ps id) in (update ps id p, some a))
    else (ps, none)

unfoldable pub pty_destroy : Ptys → ℕ → Ptys × Option (Unit {0})
pty_destroy ps id = on_pty ps id (λ p. (zeroed, tt))

unfoldable pub pty_set_flags : Ptys → ℕ → ℕ → Ptys × Option (Unit {0})
pty_set_flags ps id flags = on_pty ps id (λ p. (record p { flags = flags }, tt))

-- `p->canon[p->canon_len++] = c` while there is room.
abbrev pub canon_put : Pty → ℕ → Pty
canon_put p c =
    if ltb p.canon_len (pty_line - 1)
    then record p { canon = update p.canon p.canon_len c; canon_len = p.canon_len + 1 }
    else p

-- The canonical mode's treatment of a character that is no carriage return.
unfoldable pub edit : Pty → ℕ → Pty
edit p c =
    if c == b'\n'
    then record (canon_put p c) { line_ready = true }
    else if c == 0x08 || c == 0x7F
    then (if ltb 0 p.canon_len then record p { canon_len = p.canon_len - 1 } else p)
    else if c == 0x15
    then record p { canon_len = 0 }
    else if leb 32 c || c == b'\t'
    then canon_put p c
    else p

abbrev pub echoed : Pty → ℕ → Pty
echoed p c = if echo p.flags then record p { out = ring_push p.out c } else p

unfoldable pub input : Pty → ℕ → Pty
unfolding edit ring_push
input p c =
    if icanon p.flags
    then (let c' = if c == b'\r' then b'\n' else c in echoed (edit p c') c')
    else echoed (record p { in_raw = ring_push p.in_raw c }) c

unfoldable pub pty_slave_input : Ptys → ℕ → ℕ → Ptys × Option (Unit {0})
unfolding input
pty_slave_input ps id c = on_pty ps id (λ p. (input p c, tt))

-- One round's pop, and the rounds after it unless the ring was empty.
pub pop_then : Option ℕ × Ring → (Ring → Ring × List ℕ) → Ring × List ℕ
pop_then (none, q) others = (q, [])
pop_then (some c, q) others = let (r, cs) = others q in (r, c ∷ cs)

-- `while (n < max)` with the rounds left.
pub pops : Ring → ℕ → Ring × List ℕ
unfolding ring_pop pop_then
pops r zero = (r, [])
pops r (suc n) = pop_then (ring_pop r) (λ q. pops q n)

-- What a reader of the slave side gets: a line when one is ready and fits, or raw characters.
unfoldable pub slave_read : Pty → ℕ → Pty × List ℕ
unfolding copy pops
slave_read p max =
    if icanon p.flags
    then (if not p.line_ready || ltb max (p.canon_len + 1)
        then (p, [])
        else (record p { canon_len = 0; line_ready = false }, copy p.canon 0 p.canon_len))
    else (let (q, cs) = pops p.in_raw max in (record p { in_raw = q }, cs))

unfoldable pub pty_slave_read : Ptys → ℕ → ℕ → Ptys × Option (List ℕ)
unfolding slave_read
pty_slave_read ps id max = if max == 0 then (ps, none) else on_pty ps id (λ p. slave_read p max)

unfoldable pub master_read : Pty → ℕ → Pty × List ℕ
unfolding pops
master_read p max = let (q, cs) = pops p.out max in (record p { out = q }, cs)

unfoldable pub pty_master_read : Ptys → ℕ → ℕ → Ptys × Option (List ℕ)
unfolding master_read
pty_master_read ps id max = if max == 0 then (ps, none) else on_pty ps id (λ p. master_read p max)

-- The loop of `pty_master_write`: `\n` goes out as `\r\n` if the flag says so.
unfoldable pub write_out : ℕ → Ring → List ℕ → Ring
unfolding ring_push
write_out flags r [] = r
write_out flags r (c ∷ cs) =
    write_out flags (ring_push (if c == b'\n' && onlcr flags then ring_push r b'\r' else r) c) cs

unfoldable pub master_write : Pty → List ℕ → Pty
unfolding write_out
master_write p s = record p { out = write_out p.flags p.out s }

-- The number of characters is that of the caller's, also where the ring was full.
unfoldable pub pty_master_write : Ptys → ℕ → List ℕ → Ptys × Option ℕ
unfolding master_write
pty_master_write ps id s = on_pty ps id (λ p. (master_write p s, length s))
