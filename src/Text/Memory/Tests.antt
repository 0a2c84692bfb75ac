-- ===== src/Text/Memory/Tests.antt =====
-- kernel/lib/string.c: concrete runs.
use char_os.Base.{◌≡◌, inr, refl, arith, some, update}
use char_os.Text.Memory.{Mem, memmove, copy_up, copy_down, memcpy, strncpy, strlen, strlen_from}
use char_os.Text.Memory.Moves.{moved, memmove-moved}
use char_os.Text.Memory.Strings.{string_copied, strncpy-string_copied}

-- Address `i` holds `i`.
abbrev counted : Mem
counted i = i

memmove_overlap : memmove counted 12 10 5 14 ≡ 12
unfolding memmove copy_up copy_down
memmove_overlap = refl

-- memcpy copies upwards only, so a target inside the source repeats the first bytes.
memcpy_overlap : memcpy counted 12 10 5 14 ≡ 10
unfolding memcpy copy_up
memcpy_overlap = refl

memmove-moved_example : memmove counted 12 10 5 14 ≡ moved counted 12 10 5 14
memmove-moved_example = memmove-moved counted 12 10 5 14

-- "hi" at address 100.
abbrev written_hi : Mem
written_hi = update (update (λ _. 0) 100 b'h') 101 b'i'

strncpy-string_copied_example :
    strncpy written_hi 200 100 8 201 ≡ string_copied written_hi 200 100 8 201
strncpy-string_copied_example = strncpy-string_copied written_hi 200 100 8 201 (inr (omega arith))

strlen_hi : strlen 10 written_hi 100 ≡ some 2
unfolding strlen strlen_from
strlen_hi = refl
