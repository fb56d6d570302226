-- ===== src/Upload/Http.antt =====
-- firmware/src/tasks/upload/http.rs: the request that is sent, and the status and the length of
-- the answer.
use sleep_environment_monito.Prelude.{
  ℕ, ◌+◌, ◌-◌, ◌*◌, List, [], ◌∷◌, ◌++◌, Bool, true, false, ◌&&◌, ◌||◌, Option, none, some, leb,
  ◌==◌, if◌then◌else◌, Result, length, take, drop, usize_max, checked_add,
}
use sleep_environment_monito.Prelude.Texts.{codes}
use sleep_environment_monito.Upload.{EncodeError, ResponseClass, success, malformed, http_failure}
use sleep_environment_monito.Upload.Decimal.{decimal, is_ascii_digit, scan_digits}
use sleep_environment_monito.Upload.Writer.{written}
use sleep_environment_monito.Upload.Parse.{starts_with, after_first}

abbrev pub user_agent : List ℕ
user_agent = codes "sleep-environment-monitor/0.1"

abbrev pub content_type_header : Option (List ℕ) → List (List ℕ)
content_type_header none = []
content_type_header (some content_type) = codes "Content-Type: " ∷ content_type ∷ codes "\r\n" ∷ []

unfoldable pub request_pieces : List ℕ → List ℕ → List ℕ → Option (List ℕ) → List ℕ → List (List ℕ)
request_pieces method host path content_type body =
    (method
      ∷ codes " "
      ∷ path
      ∷ codes " HTTP/1.1\r\n"
      ∷ codes "Host: "
      ∷ host
      ∷ codes "\r\n"
      ∷ codes "User-Agent: "
      ∷ user_agent
      ∷ codes "\r\n"
      ∷ [])
    ++ (content_type_header content_type
        ++ codes "Content-Length: "
          ∷ decimal (length body)
          ∷ codes "\r\n"
          ∷ codes "Connection: close\r\n\r\n"
          ∷ body
          ∷ [])

unfoldable pub build_http_request :
    List ℕ → List ℕ → List ℕ → Option (List ℕ) → List ℕ → List ℕ → Result EncodeError (ℕ × List ℕ)
unfolding request_pieces written
build_http_request method host path content_type body out =
    written (request_pieces method host path content_type body) out

abbrev status_digits : List ℕ → Bool → Option ℕ
status_digits (a ∷ b ∷ c ∷ []) http =
    if http && (is_ascii_digit a && (is_ascii_digit b && is_ascii_digit c))
    then some ((a - b'0') * 100 + (b - b'0') * 10 + (c - b'0'))
    else none
status_digits _ http = none

-- `response.get(9..12)` is `None` for a response of less than 12 bytes.
unfoldable pub http_status_code : List ℕ → Option ℕ
unfolding starts_with
http_status_code response =
    status_digits (take 3 (drop 9 response)) (starts_with response (codes "HTTP/1."))

unfoldable pub http_response_class : List ℕ → ResponseClass
unfolding http_status_code
http_response_class response = elim (http_status_code response) [
  | none ↦ malformed
  | some status ↦ if leb 200 status && leb status 299 then success else http_failure status
]

abbrev is_success : ResponseClass → Bool
is_success success = true
is_success malformed = false
is_success (http_failure _) = false

unfoldable pub http_response_is_success : List ℕ → Bool
unfolding http_response_class
http_response_is_success response = is_success (http_response_class response)

abbrev pub is_line_ws : ℕ → Bool
is_line_ws b = b == 32 || (b == 9 || b == 13)

unfoldable pub trim_front : List ℕ → List ℕ
trim_front [] = []
trim_front (b ∷ input) = let rest = trim_front input in if is_line_ws b then rest else b ∷ input

unfoldable pub trim_back : List ℕ → List ℕ
trim_back [] = []
trim_back (b ∷ input) = elim (trim_back input) [
  | [] ↦ if is_line_ws b then [] else b ∷ []
  | c ∷ rest ↦ b ∷ c ∷ rest
]

unfoldable pub trim_http_line : List ℕ → List ℕ
unfolding trim_front trim_back
trim_http_line input = trim_back (trim_front input)

-- `split_header`: the name, and the value behind the first colon.
unfoldable pub split_header : List ℕ → Option (List ℕ × List ℕ)
split_header [] = none
split_header (b ∷ line) =
    let later : Option (List ℕ × List ℕ) = elim (split_header line) [
      | none ↦ none
      | some (name, value) ↦ some (b ∷ name, value)
    ] in
    if b == b':' then some ([], line) else later

abbrev pub to_ascii_lowercase : ℕ → ℕ
to_ascii_lowercase b = if leb b'A' b && leb b b'Z' then b + 32 else b

unfoldable pub ascii_eq_ignore_case : List ℕ → List ℕ → Bool
ascii_eq_ignore_case [] [] = true
ascii_eq_ignore_case [] (r ∷ right) = false
ascii_eq_ignore_case (l ∷ left) [] = false
ascii_eq_ignore_case (l ∷ left) (r ∷ right) =
    to_ascii_lowercase l == to_ascii_lowercase r && ascii_eq_ignore_case left right

unfoldable pub parse_usize_decimal : List ℕ → Option ℕ
unfolding scan_digits
parse_usize_decimal input = elim (scan_digits usize_max 0 false input) [
  | none ↦ none
  | some (parsed, true) ↦ some parsed
  | some (parsed, false) ↦ none
]

-- The lines between the line feeds: `headers.split(…)` gives the last one too.
unfoldable pub split_lines : List ℕ → List ℕ → List (List ℕ)
split_lines line [] = line ∷ []
split_lines line (b ∷ bytes) =
    let ended = line ∷ split_lines [] bytes in
    let longer = split_lines (line ++ b ∷ []) bytes in if b == 10 then ended else longer

-- The loop over the lines: the first line with the header decides.
unfoldable pub content_length_of : List (List ℕ) → Option ℕ
unfolding trim_http_line split_header ascii_eq_ignore_case parse_usize_decimal
content_length_of [] = none
content_length_of (line ∷ lines) =
    let later = content_length_of lines in
    elim (split_header (trim_http_line line)) [
      | none ↦ later
      | some (name, value) ↦
          if ascii_eq_ignore_case name (codes "Content-Length")
          then parse_usize_decimal (trim_http_line value)
          else later
    ]

unfoldable pub http_content_length : List ℕ → Option ℕ
unfolding split_lines content_length_of
http_content_length headers = content_length_of (split_lines [] headers)

unfoldable pub http_response_total_len : List ℕ → Option ℕ
unfolding after_first http_content_length
http_response_total_len response = elim (after_first (13 ∷ 10 ∷ 13 ∷ 10 ∷ []) response) [
  | none ↦ none
  | some rest ↦
      let header_end = length response - length rest in
      elim (http_content_length (take header_end response)) [
        | none ↦ none
        | some content_len ↦ checked_add usize_max header_end content_len
      ]
]
