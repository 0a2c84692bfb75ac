-- ===== src/Text/Memory/Moves.antt =====
-- kernel/lib/string.c: copying memory, also onto itself.
use char_os.Base.{
  ℕ, zero, suc, ◌+◌, ◌-◌, ◌≡◌, ◌≤◌, ap, ◌∙◌, arith, ◌&&◌, ltb, leb, if◌then◌else◌, update,
  Bool-cases, inl, inr,
}
use char_os.Text.Memory.{Mem, copy_up, copy_down, memmove}

-- What a copy of `n` bytes from the old memory should give at an address.
abbrev pub moved : Mem → ℕ → ℕ → ℕ → ℕ → ℕ
moved m d s n j = if leb d j && ltb j (d + n) then m (s + (j - d)) else m j

last : (m : Mem) (d s i j : ℕ) → j ≡ d + i → m (s + i) ≡ m (s + (j - d))
last m d s i j e = ap m (omega (arith, e))

copy_up_value :
    (n : ℕ) (m : Mem) (d s i j : ℕ)
    → d ≤ s
    → copy_up m d s i n j ≡ (if leb (d + i) j && ltb j (d + i + n) then m (s + (j - d)) else m j)
unfolding copy_up
copy_up_value zero m d s i j h = ground arith
copy_up_value (suc n) m d s i j h =
    copy_up_value n (update m (d + i) (m (s + i))) d s (i + 1) j h ∙ ground (arith, last m d s i j)

copy_down_value :
    (n : ℕ) (m : Mem) (d s j : ℕ)
    → s ≤ d
    → copy_down m d s n j ≡ (if leb d j && ltb j (d + n) then m (s + (j - d)) else m j)
unfolding copy_down
copy_down_value zero m d s j h = ground arith
copy_down_value (suc n) m d s j h =
    copy_down_value n (update m (d + n) (m (s + n))) d s j h ∙ ground (arith, last m d s n j)

-- memmove gives the target what the source held before, whichever way the two overlap, and
-- changes nothing else.
pub memmove-moved : (m : Mem) (dst src n j : ℕ) → memmove m dst src n j ≡ moved m dst src n j
unfolding memmove
memmove-moved m dst src n j = elim (Bool-cases (ltb dst src)) [
  | inl e ↦
      ap (λ b. (if b then copy_up m dst src 0 n else copy_down m dst src n) j) e
      ∙ copy_up_value n m dst src 0 j (ground arith)
      ∙ ap (λ k. if leb k j && ltb j (k + n) then m (src + (j - dst)) else m j) {x = dst + 0}
          {y = dst} (omega arith)
  | inr e ↦
      ap (λ b. (if b then copy_up m dst src 0 n else copy_down m dst src n) j) e
      ∙ copy_down_value n m dst src j (ground arith)
]
