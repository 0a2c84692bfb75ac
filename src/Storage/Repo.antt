-- ===== src/Storage/Repo.antt =====
-- kernel/arch/x86_64/repo64.c: the index of the package repositories.  A C string is the list of
-- its characters before the end mark, all below 128; numbers in versions do not overflow an int.
use char_os.Base.{
  ℕ, zero, suc, ◌+◌, ◌-◌, ◌*◌, Bool, true, false, not, ◌&&◌, ◌||◌, Option, none, some, List, [],
  ◌∷◌, ◌++◌, ◌==◌, ltb, leb, if◌then◌else◌, length, take,
}
pub mod Order
mod Tests

abbrev pub max_entries : ℕ
max_entries = 128

abbrev pub ver_max : ℕ
ver_max = 32

abbrev pub repo_max : ℕ
repo_max = 48

-- strcmp(a, b) == 0
unfoldable pub same_string : List ℕ → List ℕ → Bool
same_string [] [] = true
same_string [] (y ∷ ys) = false
same_string (x ∷ xs) [] = false
same_string (x ∷ xs) (y ∷ ys) = x == y && same_string xs ys

-- struct repo_entry
pub record RepoEntry : Type 0 where
  pub name : List ℕ
  pub ver : List ℕ
  pub repo : List ℕ
  pub enabled : Bool

abbrev pub same_entry : List ℕ → List ℕ → List ℕ → RepoEntry → Bool
same_entry name ver repo e =
    e.enabled && same_string e.repo repo && same_string e.name name && same_string e.ver ver

abbrev pub known : List ℕ → List ℕ → List ℕ → List RepoEntry → Bool
known name ver repo [] = false
known name ver repo (e ∷ tab) = same_entry name ver repo e || known name ver repo tab

-- What repo64_add returns: 0, -2 for an entry that is there, -3 for a full table.
pub data Added : Type 0 where
  added : Added
  present : Added
  no_room : Added

unfoldable pub repo_add : List RepoEntry → List ℕ → List ℕ → List ℕ → Added × List RepoEntry
repo_add tab name ver repo =
    if known name ver repo tab
    then (present, tab)
    else if leb max_entries (length tab)
    then (no_room, tab)
    else (
      added,
      tab
          ++ (record {
            name = take (repo_max - 1) name;
            ver = take (ver_max - 1) ver;
            repo = take (repo_max - 1) repo;
            enabled = true;
          }
              ∷ []),
    )

-- -1, 0 and 1.
pub data Comparison : Type 0 where
  lower : Comparison
  equal : Comparison
  higher : Comparison

abbrev pub compare_numbers : ℕ → ℕ → Comparison
compare_numbers a b = if ltb a b then lower else if ltb b a then higher else equal

abbrev pub is_digit : ℕ → Bool
is_digit c = leb b'0' c && leb c b'9'

-- The number at the front of a string, added to `v * 10`, and what comes after it.
unfoldable pub number : ℕ → List ℕ → ℕ × List ℕ
number v [] = (v, [])
number v (c ∷ p) =
    let rest = number (v * 10 + (c - b'0')) p in if is_digit c then rest else (v, c ∷ p)

-- What is left of a string after the loop: its next character, one more for a dot.
abbrev pub rest_value : List ℕ → ℕ
rest_value [] = 0
rest_value (c ∷ p) = (if c == b'.' then 1 else 0) + c

-- The answer for two numbers, or the rest of the loop for equal ones.
abbrev pub unless_equal : Comparison → Option Comparison → Option Comparison
unless_equal lower next = some lower
unless_equal higher next = some higher
unless_equal equal next = next

-- The loop, on fuel; every pass takes a character of both strings at least.
unfoldable pub vercmp_from : ℕ → List ℕ → List ℕ → Option Comparison
vercmp_from fuel [] b = some (compare_numbers 0 (rest_value b))
vercmp_from fuel (x ∷ a) [] = some (compare_numbers (rest_value (x ∷ a)) 0)
vercmp_from zero (x ∷ a) (y ∷ b) = none
vercmp_from (suc fuel) (x ∷ a) (y ∷ b) =
    let m : ℕ × List ℕ = number 0 (x ∷ a) in
    let n : ℕ × List ℕ = number 0 (y ∷ b) in
    let after_numbers = vercmp_from fuel m.1 n.1 in
    let after_one = vercmp_from fuel a b in
    if is_digit x && is_digit y
    then unless_equal (compare_numbers m.0 n.0) after_numbers
    else unless_equal (compare_numbers x y) after_one

abbrev pub or_equal : Option Comparison → Comparison
or_equal none = equal
or_equal (some c) = c

-- repo64_vercmp
unfoldable pub vercmp : List ℕ → List ℕ → Comparison
vercmp a b = or_equal (vercmp_from (length a + length b) a b)

abbrev pub is_lower : Comparison → Bool
is_lower lower = true
is_lower equal = false
is_lower higher = false

abbrev pub is_higher : Comparison → Bool
is_higher lower = false
is_higher equal = false
is_higher higher = true

-- Whether an entry is a candidate for a name and a version it must reach; an empty one is none.
abbrev pub matches : List ℕ → List ℕ → RepoEntry → Bool
matches name req e =
    e.enabled && same_string e.name name && (length req == 0 || not (is_lower (vercmp e.ver req)))

-- The better of the version found so far and an entry.
abbrev pub better : Option (List ℕ) → List ℕ → Option (List ℕ)
better none ver = some ver
better (some found) ver = if is_higher (vercmp ver found) then some ver else some found

unfoldable pub find_from : List RepoEntry → List ℕ → List ℕ → Option (List ℕ) → Option (List ℕ)
find_from [] name req found = found
find_from (e ∷ tab) name req found =
    find_from tab name req (if matches name req e then better found e.ver else found)

abbrev pub cut_version : ℕ → Option (List ℕ) → Option (List ℕ)
cut_version max none = none
cut_version max (some ver) = some (take (max - 1) ver)

-- repo64_find: the version, cut to the buffer, or none for -2.
unfoldable pub repo_find : List RepoEntry → List ℕ → List ℕ → ℕ → Option (List ℕ)
repo_find tab name req max = cut_version max (find_from tab name req none)
