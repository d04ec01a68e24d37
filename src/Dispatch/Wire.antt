-- ===== src/Dispatch/Wire.antt =====
-- The helpers at the top of message_dispatcher.cpp that write and read JSON text. A text is taken
-- character by character; every character that they look for is a single byte.

use Prim.Native.Char.{Char, code}
use Prim.Native.String.{[] as nil, ◌∷◌ as cons, ◌++◌ as append}
use gd_server.Base.{
  Bool, Option, String, false, if◌then◌else◌, leb, ltb, none, not, some, true, ℕ, ◌%◌, ◌&&◌, ◌*◌,
  ◌+◌, ◌-◌, ◌==◌, ◌^◌, ◌||◌,
}

-- The loop of `jsonEscape`, one character: its escape, or itself.
unfoldable pub escaped : Char → String
escaped c =
    if code c == b'"'
    then "\\\""
    else if code c == b'\\'
    then "\\\\"
    else if code c == 10
    then "\\n"
    else if code c == 13
    then "\\r"
    else if code c == 9
    then "\\t"
    else cons c ""

unfoldable pub json_escape : String → String
json_escape nil = ""
json_escape (cons c s) = append (escaped c) (json_escape s)

-- What follows a text at the front of another, where it stands there.
unfoldable pub strip : String → String → Option String
strip nil s = some s
strip (cons c cs) nil = none
strip (cons c cs) (cons d ds) = if code c == code d then strip cs ds else none

-- `json.find(needle)`, and on from its end: what follows the first occurrence.
unfoldable pub after_first : String → String → Option String
unfolding strip
after_first needle nil = strip needle ""
after_first needle (cons d ds) =
    let rest = after_first needle ds in
    elim (strip needle (cons d ds)) [ some s ↦ some s | none ↦ rest ]

abbrev is_digit : ℕ → Bool
is_digit c = leb 48 c && leb c 57

-- The digits at the front, as a number that goes on from `n`.
digits_from : ℕ → String → ℕ
digits_from n nil = n
digits_from n (cons c s) =
    let more = digits_from (n * 10 + (code c - 48)) s in if is_digit (code c) then more else n

starts_with_digit : String → Bool
starts_with_digit nil = false
starts_with_digit (cons c s) = is_digit (code c)

-- `std::stoull` of a text that begins with a digit, and 0 where it throws.
from_digits : String → ℕ
unfolding digits_from starts_with_digit
from_digits s =
    let n = digits_from 0 s in
    if not (starts_with_digit s) then 0 else if ltb n (2 ^ 64) then n else 0

-- `std::stoull` takes a minus sign and negates the number in 64 bits.
unfoldable pub stoull : String → ℕ
unfolding from_digits
stoull nil = 0
stoull (cons c s) =
    if code c == b'-' then (2 ^ 64 - from_digits s) % 2 ^ 64 else from_digits (cons c s)

unfoldable pub extract_json_uint_from_data : String → String → ℕ
unfolding after_first stoull
extract_json_uint_from_data json key = elim (after_first (append "\"" (append key "\":")) json) [
  | none ↦ 0
  | some rest ↦ stoull rest
]

-- The text up to the next quote; `none` where there is none.
unfoldable pub up_to_quote : String → Option String
up_to_quote nil = none
up_to_quote (cons c s) =
    let rest = up_to_quote s in
    if code c == b'"' then some "" else elim rest [ none ↦ none | some t ↦ some (cons c t) ]

unfoldable pub extract_json_string_from_data : String → String → String
unfolding after_first up_to_quote
extract_json_string_from_data json key =
    elim (after_first (append "\"" (append key "\":\"")) json) [
      | none ↦ ""
      | some rest ↦ elim (up_to_quote rest) [ none ↦ "" | some t ↦ t ]
    ]

abbrev is_space : ℕ → Bool
is_space c = c == 32 || (leb 9 c && leb c 13)

skip_spaces : String → String
skip_spaces nil = nil
skip_spaces (cons c s) = let rest = skip_spaces s in if is_space (code c) then rest else cons c s

unfoldable pub extract_json_bool_from_data : String → String → Bool
unfolding after_first skip_spaces strip
extract_json_bool_from_data json key = elim (after_first (append "\"" (append key "\":")) json) [
  | none ↦ false
  | some rest ↦ elim (strip "true" (skip_spaces rest)) [ none ↦ false | some t ↦ true ]
]

-- `static_cast<int>` of 64 bits; `none` is a negative number.
unfoldable pub as_int : ℕ → Option ℕ
as_int n = let v = n % 2 ^ 32 in if ltb v (2 ^ 31) then some v else none
