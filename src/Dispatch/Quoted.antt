-- ===== src/Dispatch/Quoted.antt =====
-- The strings that jsonEscape writes, as a strict reader of JSON strings (RFC 8259) reads them.
use Prim.Native.Char.{Char, code}
use Prim.Native.String.{[] as nil, ◌∷◌ as cons, ◌++◌ as append}
use text.Mathlib.TextEquality.{Char-path}
use text.Mathlib.TextLemmas.{append_assoc, cons-append, nil-append}
use gd_server.Base.{
  Bool, Bool-cases, Option, String, ap, arith, false, if◌then◌else◌, inl, inr, ltb, none, not, refl,
  some, true, ℕ_discrete, ◌&&◌, ◌==◌, ◌||◌, ◌∙◌, ◌≡◌,
}
use gd_server.Dispatch.Wire.{escaped, json_escape}

-- The character that an escape stands for: `\"`, `\\`, `\n`, `\r` and `\t`.
unescaped : Char → Option Char
unescaped c =
    if code c == b'"'
    then some "\""
    else if code c == b'\\'
    then some "\\"
    else if code c == b'n'
    then some "\n"
    else if code c == b'r'
    then some "\r"
    else if code c == b't'
    then some "\t"
    else none

abbrev Read : Type 0
Read = Option (String × String)

abbrev with_front : Option Char → Read → Read
with_front none r = none
with_front (some c) none = none
with_front (some c) (some (t, rest)) = some (cons c t, rest)

-- A reference to compare with: a reader of JSON strings, from behind the opening quote: the string,
-- and what follows the closing quote. The flag tells whether the character before was the backslash
-- of an escape. Of the escapes it knows those above. A control character, with a code below 32, may
-- not stand in a JSON string as it is.
pub read_string : Bool → String → Read
unfolding unescaped
read_string escape nil = none
read_string true (cons c s) = with_front (unescaped c) (read_string false s)
read_string false (cons c s) =
    let escape = read_string true s in
    let plain = if ltb (code c) 32 then none else with_front (some c) (read_string false s) in
    if code c == b'"' then some (nil, s) else if code c == b'\\' then escape else plain

pair_append : (a b : Char) (s : String) → append (cons a (cons b nil)) s ≡ cons a (cons b s)
pair_append a b s =
    cons-append a (cons b nil) s ∙ ap (cons a) (cons-append b nil s ∙ ap (cons b) (nil-append s))

-- The characters that jsonEscape writes so that they can be read: all but the control characters,
-- and of those the line feed, the carriage return and the tab.
unfoldable pub is_readable : Char → Bool
is_readable c = not (ltb (code c) 32) || code c == 10 || code c == 13 || code c == 9

unfoldable pub all_readable : String → Bool
all_readable nil = true
all_readable (cons c s) = let rest = all_readable s in is_readable c && rest

-- One character on.
read_escaped :
    (c : Char) (s : String) (r : Read)
    → read_string false s ≡ r
    → read_string false (append (escaped c) s)
      ≡ (if is_readable c then with_front (some c) r else none)
unfolding read_string escaped is_readable
read_escaped c s r h = elim (ℕ_discrete (code c) b'"') [
  | yes is ↦ rw (Char-path c "\"" is, pair_append "\\" "\"" s) (ap (with_front (some "\"")) h)
  | no quote ↦ elim (ℕ_discrete (code c) b'\\') [
    | yes is ↦ rw (Char-path c "\\" is, pair_append "\\" "\\" s) (ap (with_front (some "\\")) h)
    | no slash ↦ elim (ℕ_discrete (code c) 10) [
      | yes is ↦ rw (Char-path c "\n" is, pair_append "\\" "n" s) (ap (with_front (some "\n")) h)
      | no line ↦ elim (ℕ_discrete (code c) 13) [
        | yes is ↦ rw (Char-path c "\r" is, pair_append "\\" "r" s) (ap (with_front (some "\r")) h)
        | no return ↦ elim (ℕ_discrete (code c) 9) [
          | yes is ↦
              rw (Char-path c "\t" is, pair_append "\\" "t" s) (ap (with_front (some "\t")) h)
          | no tab ↦
              let e : escaped c ≡ cons c "" = ground arith in
              rw (e, cons-append c "" s, nil-append s) (ground arith)
        ]
      ]
    ]
  ]
]

-- A string that jsonEscape escapes and that is put between quotes is read back by a strict reader as
-- it was, and nothing after it is taken for a part of it, exactly where each control character in it
-- is a line feed, a carriage return or a tab; with any other it cannot be read.
pub read_string-json_escape :
    (s rest : String)
    → read_string false (append (json_escape s) (cons "\"" rest))
      ≡ (if all_readable s then some (s, rest) else none)
unfolding json_escape read_string all_readable
read_string-json_escape nil rest = rw (nil-append (cons "\"" rest)) refl
read_string-json_escape (cons c s) rest =
    let on =
      read_escaped c (append (json_escape s) (cons "\"" rest)) _ (read_string-json_escape s rest) in
    rw (append_assoc (escaped c) (json_escape s) (cons "\"" rest)) (
      on ∙ elim (Bool-cases (is_readable c)) [
        | inl fits ↦ elim (Bool-cases (all_readable s)) [
          | inl good ↦ rw (fits, good) refl
          | inr bad ↦ rw (fits, bad) refl
        ]
        | inr out ↦ rw out refl
      ])
