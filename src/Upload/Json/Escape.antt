-- ===== src/Upload/Json/Escape.antt =====
-- `write_json_escaped_str` of tasks/upload/json.rs against a reader of JSON strings.
use sleep_environment_monito.Prelude.{
  ℕ, ◌≡◌, refl, List, [], ◌∷◌, ◌++◌, append_assoc, map, Bool, true, false, ◌&&◌, Option, none, some,
  arith, leb, ◌==◌, if◌then◌else◌,
}
use sleep_environment_monito.Upload.Json.{escaped, write_json_escaped_str}
use sleep_environment_monito.Upload.Writer.{concat}

abbrev added : ℕ → Option (List ℕ × List ℕ) → Option (List ℕ × List ℕ)
added b none = none
added b (some (text, rest)) = some (b ∷ text, rest)

-- A JSON string behind its first quote: the text, and what follows the last quote. A backslash
-- stands before a quote or a backslash; a control byte is not allowed. The flag is up behind a
-- backslash.
unfoldable pub read_string : Bool → List ℕ → Option (List ℕ × List ℕ)
read_string hidden [] = none
read_string true (b ∷ input) =
    let next = added b (read_string false input) in
    if b == b'"' then next else if b == b'\\' then next else none
read_string false (b ∷ input) =
    let behind = read_string true input in
    let next = added b (read_string false input) in
    if b == b'"'
    then some ([], input)
    else if b == b'\\'
    then behind
    else if leb 32 b
    then next
    else none

-- What is sent of a byte.
abbrev pub printable : ℕ → ℕ
printable b = if leb 32 b && leb b 126 then b else b'?'

read_escaped :
    (b : ℕ) (input : List ℕ)
    → read_string false (escaped b ++ input) ≡ added (printable b) (read_string false input)
unfolding read_string escaped
read_escaped b input = ground arith

-- A string that is escaped, and closed by a quote, is read back up to this quote: every byte that
-- is printed is read as it is, every other one as a question mark, and no byte of the string ends
-- it or reaches into what follows.
pub read_string-escaped :
    (s rest : List ℕ)
    → read_string false (concat (write_json_escaped_str s) ++ (b'"' ∷ rest))
      ≡ some (map printable s, rest)
unfolding read_string write_json_escaped_str concat
read_string-escaped [] rest = refl
read_string-escaped (b ∷ s) rest =
    rw
      (
        append_assoc (escaped b) (concat (write_json_escaped_str s)) (b'"' ∷ rest),
        read_escaped b (concat (write_json_escaped_str s) ++ (b'"' ∷ rest)),
        read_string-escaped s rest,
      )
      refl
