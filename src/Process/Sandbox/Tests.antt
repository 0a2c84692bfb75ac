-- ===== src/Process/Sandbox/Tests.antt =====
-- The theorems about the filter at concrete masks.
use mathlib.Core.Option
use char_os.Base.{◌≡◌, none, some, not, ◌||◌, ◌&&◌, ◌==◌, ltb, if◌then◌else◌, update}
use char_os.Process.Sandbox.{Mask, check, allow, deny}
use char_os.Process.Sandbox.Filter.{check-allow-deny}

abbrev first_words : Mask
first_words = update (λ i. 0) 0 0b1001

check-allow-deny_example :
    (Option.map (λ a. check a 3) (allow first_words 33)
      ≡ (if ltb 33 256 then some ((3 == 33) || check first_words 3) else none))
    × (Option.map (λ d. check d 3) (deny first_words 33)
        ≡ (if ltb 33 256 then some (not (3 == 33) && check first_words 3) else none))
check-allow-deny_example = check-allow-deny first_words 33 3
