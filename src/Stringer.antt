-- ===== src/Stringer.antt =====
-- What the code of stringer computes: a number's name is a slice of one text, between two entries of
-- a table. Go panics on a bad index and on a bad slice: `none`.
pub mod Names
pub mod Checks
mod Tests
use Prim.Native.String.{◌++◌ as concat}
use text.Mathlib.Text.{get?}
use arigo.Base.{
  Bool, true, ◌&&◌, not, ℕ, suc, ◌+◌, ◌-◌, ◌^◌, ◌<◌, ◌≡◌, String, Option, none, some, List, [], ◌∷◌,
  ltb, if◌then◌else◌, get_elem?, length,
}
use arigo.Json.{ℤ, pos, negsuc}
use arigo.Tags.Quoted.{int_text}

-- name[index[i]:index[i+1]]
abbrev slice_between : String → Option ℕ → Option ℕ → Option String
slice_between name (some a) (some b) = get? name a b
slice_between name a b = none

abbrev pub name_at : String → List ℕ → ℕ → Option String
name_at name index i = slice_between name (get_elem? index i) (get_elem? index (suc i))

-- int64(i), of a number of 64 bits.
abbrev as_int64 : ℕ → ℤ
as_int64 i = if ltb i (2 ^ 63) then pos i else negsuc (2 ^ 64 - i - 1)

-- typ + "(" + strconv.FormatInt(int64(i), 10) + ")"
abbrev pub numbered : String → ℕ → String
numbered typ i = concat typ (concat "(" (concat (int_text (as_int64 i)) ")"))

-- The method String of the type, over its names and their table.
abbrev pub name_or_number : String → String → List ℕ → ℕ → Option String
name_or_number typ name index i =
    let named = name_at name index i in
    if ltb i (length index - 1) then named else some (numbered typ i)

-- x[c-n], for an array x of length one: go compiles it where c-n, a constant, is an index of x.
abbrev pub in_array : ℕ → ℕ → Bool
in_array c n = not (ltb c n) && ltb (c - n) 1

-- func _() of a generated file: it compiles where every line does.
pub compiles : List (ℕ × ℕ) → Bool
compiles [] = true
compiles ((c, n) ∷ checks) = in_array c n && compiles checks
