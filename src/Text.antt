-- ===== src/Text.antt =====
-- JavaScript strings as the server's decimal code uses them: a text is its list of code points.
-- The functions here are the language's own: `trim`, `startsWith`, `split(".")`, `padStart`,
-- `slice`, the replacements by regular expression, and `BigInt`'s reading and printing.
pub mod Digits
pub mod Shape
use perpetual_futures_exchan.Prelude.{
  ℕ, zero, suc, ◌+◌, ◌-◌, ◌*◌, ◌/◌, ◌%◌, Bool, true, false, not, ◌&&◌, ◌||◌, List, [], ◌∷◌, ◌++◌,
  ltb, leb, ◌==◌, if◌then◌else◌, length, take, drop, replicate,
}

abbrev pub Text : Type 0
Text = List ℕ

abbrev pub is_digit : ℕ → Bool
is_digit c = leb b'0' c && leb c b'9'

abbrev pub is_late_space : ℕ → Bool
is_late_space c =
    c == 0x2028 || (c == 0x2029 || (c == 0x202f || (c == 0x205f || (c == 0x3000 || c == 0xfeff))))

abbrev pub is_wide_space : ℕ → Bool
is_wide_space c = c == 0xa0 || (c == 0x1680 || ((leb 0x2000 c && leb c 0x200a) || is_late_space c))

-- The white space and line ends that `trim` takes off.
abbrev pub is_space : ℕ → Bool
is_space c = if ltb 32 c then is_wide_space c else c == 32 || (leb 9 c && leb c 13)

abbrev pub is_zero_char : ℕ → Bool
is_zero_char c = c == b'0'

unfoldable pub trim_start : Text → Text
trim_start [] = []
trim_start (c ∷ cs) = if is_space c then trim_start cs else c ∷ cs

-- `s.replace(/p+$/, "")`
unfoldable pub drop_end : (ℕ → Bool) → Text → Text
drop_end p [] = []
drop_end p (c ∷ cs) = elim (drop_end p cs) [ [] ↦ if p c then [] else c ∷ [] | d ∷ ds ↦ c ∷ d ∷ ds ]

unfoldable pub trim : Text → Text
unfolding trim_start drop_end
trim s = drop_end is_space (trim_start s)

-- `s.replace(/[^0-9]/g, "")`
unfoldable pub keep_digits : Text → Text
keep_digits [] = []
keep_digits (c ∷ cs) = if is_digit c then c ∷ keep_digits cs else keep_digits cs

-- The first two parts of `s.split(".")`, the second `""` where there is none.
unfoldable pub before_dot : Text → Text
before_dot [] = []
before_dot (c ∷ cs) = if c == b'.' then [] else c ∷ before_dot cs

unfoldable pub after_dot : Text → Text
unfolding before_dot
after_dot [] = []
after_dot (c ∷ cs) = if c == b'.' then before_dot cs else after_dot cs

unfoldable pub has_exponent : Text → Bool
has_exponent [] = false
has_exponent (c ∷ cs) = (c == b'e' || c == b'E') || has_exponent cs

-- `s.replace("-", "")`: the first minus goes.
unfoldable pub drop_minus : Text → Text
drop_minus [] = []
drop_minus (c ∷ cs) = if c == b'-' then cs else c ∷ drop_minus cs

-- `s === "0"`
unfoldable pub is_lone_zero : Text → Bool
is_lone_zero [] = false
is_lone_zero (c ∷ []) = c == b'0'
is_lone_zero (c ∷ d ∷ ds) = false

-- `s || "0"`
abbrev pub or_zero : Text → Text
or_zero [] = b'0' ∷ []
or_zero (c ∷ cs) = c ∷ cs

-- `decPart ? `${intPart}.${decPart}` : intPart`
abbrev pub join_parts : Text → Text → Text
join_parts int_part [] = int_part
join_parts int_part (d ∷ ds) = int_part ++ b'.' ∷ d ∷ ds

-- `s.padStart(n, "0")`
unfoldable pub pad_start : ℕ → Text → Text
pad_start n s = replicate (n - length s) b'0' ++ s

-- `BigInt(s)` on a text of digits.
unfoldable pub number_from : ℕ → Text → ℕ
number_from acc [] = acc
number_from acc (c ∷ cs) = number_from (acc * 10 + (c - b'0')) cs

unfoldable pub number : Text → ℕ
unfolding number_from
number = number_from 0

-- `n.toString()`; a number below the fuel has fewer digits than it.
unfoldable pub print_from : ℕ → ℕ → Text
print_from zero n = []
print_from (suc fuel) n = elim (ltb n 10) [
  | true ↦ (b'0' + n) ∷ []
  | false ↦ print_from fuel (n / 10) ++ ((b'0' + n % 10) ∷ [])
]

unfoldable pub print : ℕ → Text
unfolding print_from
print n = print_from (suc n) n
