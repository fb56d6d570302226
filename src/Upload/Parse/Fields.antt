-- ===== src/Upload/Parse/Fields.antt =====
-- The fields that tasks/upload/parse.rs reads, against the texts that the firmware and the server
-- print.
use sleep_environment_monito.Prelude.{
  ℕ, ◌<◌, ◌≤◌, ◌≡◌, ◌≢◌, refl, List, [], ◌∷◌, ◌++◌, true, false, some, ok, arith, All, All-append,
  u16_max, u64_max, ne_test, le→leb,
}
use sleep_environment_monito.Prelude.Texts.{codes}
use sleep_environment_monito.Upload.{discovered}
use sleep_environment_monito.Upload.Decimal.{
  decimal, IsDigit, digits_cons, digits-IsDigit, scan_digits, scan_digits-digits, is_ascii_digit,
}
use sleep_environment_monito.Upload.Parse.{
  starts_with, after_first, trim_json_ws, field_value, parse_json_u64, parse_json_u16,
  parse_json_ipv4, before_quote, parse_discovery_endpoint,
}
use sleep_environment_monito.Upload.Parse.Ipv4.{dotted, parse_ipv4_str-dotted}

-- Bytes of a text that the quote is not among.
abbrev pub IsPlain : List ℕ → Type 0
IsPlain = All (λ b. b ≢ b'"')

-- A needle that begins with a quote is not found in a plain text.
after_first_plain :
    (needle xs rest : List ℕ)
    → IsPlain xs
    → after_first (b'"' ∷ needle) (xs ++ rest) ≡ after_first (b'"' ∷ needle) rest
unfolding after_first starts_with
after_first_plain needle [] rest h = refl
after_first_plain needle (x ∷ xs) rest (ne, h) =
    rw (ne_test x b'"' ne) (after_first_plain needle xs rest h)

trim_digit : (d : ℕ) (rest : List ℕ) → IsDigit d → trim_json_ws (d ∷ rest) ≡ d ∷ rest
unfolding trim_json_ws
trim_digit d rest h = ground arith

pub trim-decimal : (n : ℕ) (rest : List ℕ) → trim_json_ws (decimal n ++ rest) ≡ decimal n ++ rest
trim-decimal n rest =
    let (d, more, e, digit) = digits_cons 19 n in rw e (trim_digit d (more ++ rest) digit)

-- A number ends at a byte that is no digit.
scan_ends :
    (limit n b : ℕ) (rest : List ℕ)
    → is_ascii_digit b ≡ false
    → scan_digits limit n true (b ∷ rest) ≡ some (n, true)
unfolding scan_digits
scan_ends limit n b rest h = rw h refl

-- The value of a field that is a number.
pub parse_json_u64_lem :
    (input field : List ℕ) (n b : ℕ) (rest : List ℕ)
    → field_value input field ≡ some (decimal n ++ (b ∷ rest))
    → is_ascii_digit b ≡ false
    → n ≤ u64_max
    → parse_json_u64 input field ≡ ok n
unfolding parse_json_u64
parse_json_u64_lem input field n b rest found ends fits =
    rw
      (
        found,
        scan_digits-digits 19 u64_max n false (b ∷ rest) (omega arith) fits,
        scan_ends u64_max n b rest ends,
        parse_json_u64,
      )
      refl

digits-IsPlain : (xs : List ℕ) → All IsDigit xs → IsPlain xs
digits-IsPlain [] h = tt
digits-IsPlain (x ∷ xs) (digit, h) = (omega arith, digits-IsPlain xs h)

decimal-IsPlain : (n : ℕ) → IsPlain (decimal n)
decimal-IsPlain n = digits-IsPlain (decimal n) (digits-IsDigit 20 n)

dotted-IsPlain : (a b c d : ℕ) → IsPlain (dotted a b c d)
dotted-IsPlain a b c d = All-append _ (decimal a) _ (decimal-IsPlain a) (
  omega arith,
  All-append _ (decimal b) _ (decimal-IsPlain b) (
    omega arith,
    All-append _ (decimal c) _ (decimal-IsPlain c) (omega arith, decimal-IsPlain d),
  ),
)

before_quote_plain : (xs rest : List ℕ) → IsPlain xs → before_quote (xs ++ (b'"' ∷ rest)) ≡ some xs
unfolding before_quote
before_quote_plain [] rest h = refl
before_quote_plain (x ∷ xs) rest (ne, h) = rw (before_quote_plain xs rest h, ne_test x b'"' ne) refl

-- What the server answers to the query, up to the fields that the firmware does not read.
abbrev pub discovery_answer : List ℕ → ℕ → List ℕ → List ℕ
discovery_answer host port rest =
    codes "{\"host\":\"" ++ (host ++ (codes "\",\"port\":" ++ (decimal port ++ (b',' ∷ rest))))

host_found :
    (a b c d port : ℕ) (rest : List ℕ)
    → a < 256
    → b < 256
    → c < 256
    → d < 256
    → parse_json_ipv4 (discovery_answer (dotted a b c d) port rest) (codes "host")
      ≡ ok (a ∷ b ∷ c ∷ d ∷ [])
unfolding parse_json_ipv4 field_value after_first starts_with trim_json_ws
host_found a b c d port rest ha hb hc hd =
    rw
      (
        before_quote_plain (dotted a b c d) (codes ",\"port\":" ++ (decimal port ++ (b',' ∷ rest)))
            (dotted-IsPlain a b c d),
        parse_ipv4_str-dotted a b c d ha hb hc hd,
      )
      refl

port_found :
    (d : ℕ) (host : List ℕ) (port : ℕ) (rest : List ℕ)
    → IsDigit d
    → IsPlain (d ∷ host)
    → field_value (discovery_answer (d ∷ host) port rest) (codes "port")
      ≡ some (decimal port ++ (b',' ∷ rest))
unfolding field_value after_first starts_with
port_found d host port rest digit plain =
    rw
      (
        ne_test d b'p' (omega arith),
        ne_test d b'"' (omega arith),
        after_first_plain (codes "port\":") host
            (codes "\",\"port\":" ++ (decimal port ++ (b',' ∷ rest))) plain.1,
        trim-decimal port (b',' ∷ rest),
      )
      refl

dotted_port_found :
    (a b c d port : ℕ) (rest : List ℕ)
    → field_value (discovery_answer (dotted a b c d) port rest) (codes "port")
      ≡ some (decimal port ++ (b',' ∷ rest))
dotted_port_found a b c d port rest =
    let (first, more, e, digit) = digits_cons 19 a in
    let plain = dotted-IsPlain a b c d in
    rw e (
      port_found first (more ++ (b'.' ∷ decimal b ++ (b'.' ∷ decimal c ++ (b'.' ∷ decimal d)))) port
        rest digit (rw e at plain))

-- The endpoint that the server announces is the one that is discovered: four bytes as dotted
-- decimals for the host, a port of 16 bits, and any further fields.
pub parse_discovery_endpoint-answer :
    (a b c d port : ℕ) (rest : List ℕ)
    → a < 256
    → b < 256
    → c < 256
    → d < 256
    → port ≤ u16_max
    → parse_discovery_endpoint (discovery_answer (dotted a b c d) port rest)
      ≡ ok (record { ipv4 = a ∷ b ∷ c ∷ d ∷ []; port = port; source = discovered })
unfolding parse_discovery_endpoint parse_json_u16
parse_discovery_endpoint-answer a b c d port rest ha hb hc hd fits =
    rw
      (
        host_found a b c d port rest ha hb hc hd,
        parse_json_u64_lem (discovery_answer (dotted a b c d) port rest) (codes "port") port b','
            rest (dotted_port_found a b c d port rest) refl (omega arith),
        le→leb port u16_max fits,
      )
      refl
