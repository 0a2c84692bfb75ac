-- ===== src/Text/Memory.antt =====
-- kernel/lib/string.c: the functions on memory and on C strings.  Memory gives the byte at each
-- address; a pointer is an address and no object reaches past the end of memory.
use char_os.Base.{
  ℕ, zero, suc, ◌+◌, ◌-◌, ◌*◌, ◌%◌, Bool, true, false, not, ◌&&◌, ◌||◌, Option, none, some, List,
  [], ◌∷◌, ◌==◌, ltb, leb, if◌then◌else◌, update,
}
pub mod Moves
pub mod Strings
mod Tests

abbrev pub Mem : Type 0
Mem = ℕ → ℕ

-- `for (i...) d[i] = s[i];` with `n` rounds left from `i`.
unfoldable pub copy_up : Mem → ℕ → ℕ → ℕ → ℕ → Mem
copy_up m d s i zero = m
copy_up m d s i (suc n) = copy_up (update m (d + i) (m (s + i))) d s (i + 1) n

-- `for (i = n; i > 0; i--) d[i - 1] = s[i - 1];`
unfoldable pub copy_down : Mem → ℕ → ℕ → ℕ → Mem
copy_down m d s zero = m
copy_down m d s (suc n) = copy_down (update m (d + n) (m (s + n))) d s n

unfoldable pub memcpy : Mem → ℕ → ℕ → ℕ → Mem
memcpy m dst src n = copy_up m dst src 0 n

unfoldable pub memmove : Mem → ℕ → ℕ → ℕ → Mem
memmove m dst src n =
    let up = copy_up m dst src 0 n in
    let down = copy_down m dst src n in if ltb dst src then up else down

unfoldable pub fill_from : Mem → ℕ → ℕ → ℕ → ℕ → Mem
fill_from m s c i zero = m
fill_from m s c i (suc n) = fill_from (update m (s + i) (c % 256)) s c (i + 1) n

unfoldable pub memset : Mem → ℕ → ℕ → ℕ → Mem
memset m s c n = fill_from m s c 0 n

-- An `int` result: whether it is below 0, and by how much it differs from 0.
pub data Difference : Type 0 where
  minus : ℕ → Difference
  plus : ℕ → Difference

abbrev pub difference : ℕ → ℕ → Difference
difference x y = if ltb x y then minus (y - x) else plus (x - y)

unfoldable pub memcmp_from : Mem → ℕ → ℕ → ℕ → ℕ → Difference
memcmp_from m a b i zero = plus 0
memcmp_from m a b i (suc n) =
    let rest = memcmp_from m a b (i + 1) n in
    if m (a + i) == m (b + i) then rest else difference (m (a + i)) (m (b + i))

unfoldable pub memcmp : Mem → ℕ → ℕ → ℕ → Difference
memcmp m a b n = memcmp_from m a b 0 n

unfoldable pub strncmp_from : Mem → ℕ → ℕ → ℕ → ℕ → Difference
strncmp_from m a b i zero = plus 0
strncmp_from m a b i (suc n) =
    let rest = strncmp_from m a b (i + 1) n in
    if not (m (a + i) == m (b + i))
    then difference (m (a + i)) (m (b + i))
    else if m (a + i) == 0
    then plus 0
    else rest

unfoldable pub strncmp : Mem → ℕ → ℕ → ℕ → Difference
strncmp m a b n = strncmp_from m a b 0 n

-- The two loops of strncpy: the string as far as it goes, then zeros.
unfoldable pub strncpy_from : Mem → ℕ → ℕ → ℕ → ℕ → Mem
strncpy_from m dst src i zero = m
strncpy_from m dst src i (suc n) =
    let copied = strncpy_from (update m (dst + i) (m (src + i))) dst src (i + 1) n in
    let padded = fill_from m dst 0 i (suc n) in if m (src + i) == 0 then padded else copied

unfoldable pub strncpy : Mem → ℕ → ℕ → ℕ → Mem
strncpy m dst src n = strncpy_from m dst src 0 n

-- The loops that look for the end mark run on fuel: `none` when it is not found within it.
unfoldable pub strlen_from : ℕ → Mem → ℕ → ℕ → Option ℕ
strlen_from zero m s n = none
strlen_from (suc fuel) m s n =
    let rest = strlen_from fuel m s (n + 1) in if m (s + n) == 0 then some n else rest

unfoldable pub strlen : ℕ → Mem → ℕ → Option ℕ
strlen fuel m s = strlen_from fuel m s 0

unfoldable pub strcmp_from : ℕ → Mem → ℕ → ℕ → Option Difference
strcmp_from zero m a b = none
strcmp_from (suc fuel) m a b =
    let rest = strcmp_from fuel m (a + 1) (b + 1) in
    if not (m a == 0) && m a == m b then rest else some (difference (m a) (m b))

-- `while ((*dst++ = *src++));`
unfoldable pub strcpy_from : ℕ → Mem → ℕ → ℕ → Option Mem
strcpy_from zero m dst src = none
strcpy_from (suc fuel) m dst src =
    let stored = update m dst (m src) in
    let rest = strcpy_from fuel stored (dst + 1) (src + 1) in
    if m src == 0 then some stored else rest

abbrev pub strcat_at : ℕ → Mem → ℕ → ℕ → Option ℕ → Option Mem
strcat_at fuel m dst src none = none
strcat_at fuel m dst src (some n) = strcpy_from fuel m (dst + n) src

unfoldable pub strcat : ℕ → Mem → ℕ → ℕ → Option Mem
strcat fuel m dst src = strcat_at fuel m dst src (strlen fuel m dst)
