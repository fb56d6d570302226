-- ===== src/Upload/Parse.antt =====
-- firmware/src/tasks/upload/parse.rs: the fields of the server's answers.
pub mod Fields
pub mod Ipv4
use sleep_environment_monito.Prelude.{
  ℕ, zero, suc, ◌+◌, ◌-◌, ◌*◌, ◌<◌, ◌≤◌, ◌≡◌, List, [], ◌∷◌, ◌++◌, Bool, true, false, not, ◌&&◌,
  ◌||◌, Option, none, some, arith, ltb, leb, ◌==◌, if◌then◌else◌, Result, ok, err, ◌>>=◌, length,
  take, drop, slice, set, u8_max, u16_max, u64_max, replicate,
}
use sleep_environment_monito.Prelude.Texts.{codes}
use sleep_environment_monito.Upload.{
  ParseError, missing_field, invalid_field, Endpoint, EndpointSource, discovered,
}
use sleep_environment_monito.Upload.Decimal.{is_ascii_digit, add_digit, scan_digits}

-- `input.starts_with(needle)`, by comparing bytes
unfoldable pub starts_with : List ℕ → List ℕ → Bool
starts_with input [] = true
starts_with [] (n ∷ needle) = false
starts_with (b ∷ input) (n ∷ needle) = b == n && starts_with input needle

-- The rest behind the first window that is the needle:
-- `windows(needle.len()).position(…)` and the slice from there.
unfoldable pub after_first : List ℕ → List ℕ → Option (List ℕ)
unfolding starts_with
after_first needle [] = none
after_first needle (b ∷ input) =
    let later = after_first needle input in
    if starts_with (b ∷ input) needle then some (drop (length needle) (b ∷ input)) else later

abbrev is_json_ws : ℕ → Bool
is_json_ws b = b == 32 || (b == 10 || (b == 13 || b == 9))

unfoldable pub trim_json_ws : List ℕ → List ℕ
trim_json_ws [] = []
trim_json_ws (b ∷ input) = let rest = trim_json_ws input in if is_json_ws b then rest else b ∷ input

-- The needle is built in a buffer of 64 bytes.
unfoldable pub field_value : List ℕ → List ℕ → Option (List ℕ)
unfolding after_first trim_json_ws
field_value input field =
    if ltb 64 (length field + 3)
    then none
    else elim (after_first (b'"' ∷ field ++ (b'"' ∷ b':' ∷ [])) input) [
      | none ↦ none
      | some rest ↦ some (trim_json_ws rest)
    ]

unfoldable pub parse_json_u64 : List ℕ → List ℕ → Result ParseError ℕ
unfolding field_value scan_digits
parse_json_u64 input field = elim (field_value input field) [
  | none ↦ err missing_field
  | some value ↦ elim (scan_digits u64_max 0 false value) [
    | none ↦ err invalid_field
    | some (parsed, true) ↦ ok parsed
    | some (parsed, false) ↦ err invalid_field
  ]
]

unfoldable pub parse_json_u16 : List ℕ → List ℕ → Result ParseError ℕ
unfolding parse_json_u64
parse_json_u16 input field = parse_json_u64 input field >>= λ value.
    if leb value u16_max then ok value else err invalid_field

-- The variables of the loop of `parse_ipv4_str`.
pub record Ipv4Scan : Type 0 where
  pub octets : List ℕ
  pub index : ℕ
  pub current : ℕ
  pub has_digit : Bool

-- One turn of the loop.
unfoldable pub ipv4_byte : Ipv4Scan → ℕ → Result ParseError Ipv4Scan
unfolding add_digit
ipv4_byte sc b =
    if is_ascii_digit b
    then (elim (add_digit u16_max sc.current b) [
      | none ↦ err invalid_field
      | some current ↦
          if ltb u8_max current
          then err invalid_field
          else ok (record sc { current = current; has_digit = true })
    ])
    else if b == b'.'
    then (if not sc.has_digit || leb 3 sc.index
        then err invalid_field
        else ok (record {
          octets = set sc.octets sc.index sc.current;
          index = sc.index + 1;
          current = 0;
          has_digit = false;
        }))
    else err invalid_field

unfoldable pub ipv4_loop : Ipv4Scan → List ℕ → Result ParseError (List ℕ)
unfolding ipv4_byte
ipv4_loop sc [] =
    if not sc.has_digit || not (sc.index == 3)
    then err invalid_field
    else ok (set sc.octets sc.index sc.current)
ipv4_loop sc (b ∷ input) = ipv4_byte sc b >>= λ sc'. ipv4_loop sc' input

unfoldable pub parse_ipv4_str : List ℕ → Result ParseError (List ℕ)
unfolding ipv4_loop
parse_ipv4_str input =
    ipv4_loop (record { octets = replicate 4 0; index = 0; current = 0; has_digit = false }) input

-- The bytes before the first quote; `none` if there is no quote.
unfoldable pub before_quote : List ℕ → Option (List ℕ)
before_quote [] = none
before_quote (b ∷ input) =
    let rest : Option (List ℕ) = elim (before_quote input) [
      | none ↦ none
      | some text ↦ some (b ∷ text)
    ] in
    if b == b'"' then some [] else rest

-- The value begins with a quote, and ends before the next one.
abbrev quoted_ipv4 : List ℕ → Result ParseError (List ℕ)
quoted_ipv4 [] = err invalid_field
quoted_ipv4 (b ∷ input) =
    if b == b'"'
    then (elim (before_quote input) [ none ↦ err invalid_field | some text ↦ parse_ipv4_str text ])
    else err invalid_field

unfoldable pub parse_json_ipv4 : List ℕ → List ℕ → Result ParseError (List ℕ)
unfolding field_value before_quote parse_ipv4_str
parse_json_ipv4 input field = elim (field_value input field) [
  | none ↦ err missing_field
  | some value ↦ quoted_ipv4 value
]

unfoldable pub parse_discovery_endpoint : List ℕ → Result ParseError Endpoint
unfolding parse_json_ipv4 parse_json_u16
parse_discovery_endpoint response = parse_json_ipv4 response (codes "host") >>= λ ipv4.
    parse_json_u16 response (codes "port") >>= λ port.
    ok (record { ipv4 = ipv4; port = port; source = discovered })

-- `http_body` of http.rs.
unfoldable pub http_body : List ℕ → Option (List ℕ)
unfolding after_first
http_body response = after_first (13 ∷ 10 ∷ 13 ∷ 10 ∷ []) response

unfoldable pub parse_rest_time_unix_ms : List ℕ → Result ParseError ℕ
unfolding http_body parse_json_u64
parse_rest_time_unix_ms response = elim (http_body response) [
  | none ↦ err invalid_field
  | some body ↦ parse_json_u64 body (codes "unix_ms")
]
