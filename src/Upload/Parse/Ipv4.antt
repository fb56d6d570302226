-- ===== src/Upload/Parse/Ipv4.antt =====
-- `parse_ipv4_str` of tasks/upload/parse.rs against an address in dotted decimals, the way
-- `endpoint_host_header` of tasks/upload/runtime.rs prints it.
use sleep_environment_monito.Prelude.{
  ℕ, zero, suc, ◌+◌, ◌*◌, ◌/◌, ◌%◌, ◌^◌, ◌<◌, ◌≡◌, refl, sym, List, [], ◌∷◌, ◌++◌, append_assoc,
  append-nil, Bool, true, false, ok, arith, set, replicate,
}
use native.Mathlib.Nat.{pow-suc}
use native.Mathlib.Decide.{dec_lt}
use sleep_environment_monito.Upload.Decimal.{digits, decimal, add_digit, digits_short, digits_long}
use sleep_environment_monito.Upload.Parse.{Ipv4Scan, ipv4_byte, ipv4_loop, parse_ipv4_str}

abbrev at_octet : List ℕ → ℕ → ℕ → Bool → Ipv4Scan
at_octet octets index current has_digit = record {
  octets = octets;
  index = index;
  current = current;
  has_digit = has_digit;
}

octet_digit :
    (octets : List ℕ) (index current n : ℕ) (has_digit : Bool)
    → current ≡ n / 10
    → n < 256
    → ipv4_byte (at_octet octets index current has_digit) (b'0' + n % 10)
      ≡ ok (at_octet octets index n true)
unfolding ipv4_byte add_digit
octet_digit octets index current n has_digit e h = ground (arith, e)

-- The loop reads the digits of a byte.
octet_digits :
    (fuel : ℕ) (octets : List ℕ) (index n : ℕ) (has_digit : Bool) (rest : List ℕ)
    → n < 10 ^ suc fuel
    → n < 256
    → ipv4_loop (at_octet octets index 0 has_digit) (digits (suc fuel) n ++ rest)
      ≡ ipv4_loop (at_octet octets index n true) rest
unfolding ipv4_loop
octet_digits zero octets index n has_digit rest h byte =
    rw (digits_short 0 n (omega arith), octet_digit octets index 0 n has_digit (omega arith) byte)
      refl
octet_digits (suc fuel) octets index n has_digit rest h byte =
    let h' : n < 10 ^ suc fuel * 10 = rw (pow-suc 10 (suc fuel)) at h in
    elim (dec_lt n 10) [
      | yes short ↦
          rw
            (
              digits_short (suc fuel) n short,
              octet_digit octets index 0 n has_digit (omega arith) byte,
            )
            refl
      | no long ↦
          rw
            (
              digits_long (suc fuel) n (omega arith),
              append_assoc (digits (suc fuel) (n / 10)) ((b'0' + n % 10) ∷ []) rest,
              octet_digits fuel octets index (n / 10) has_digit ((b'0' + n % 10) ∷ rest)
                  (omega arith) (omega arith),
              octet_digit octets index (n / 10) n true refl byte,
            )
            refl
    ]

-- A dot ends a byte.
octet_dot :
    (octets : List ℕ) (index current : ℕ)
    → index < 3
    → ipv4_byte (at_octet octets index current true) b'.'
      ≡ ok (at_octet (set octets index current) (index + 1) 0 false)
unfolding ipv4_byte
octet_dot octets index current h = ground arith

abbrev pub dotted : ℕ → ℕ → ℕ → ℕ → List ℕ
dotted a b c d = decimal a ++ (b'.' ∷ decimal b ++ (b'.' ∷ decimal c ++ (b'.' ∷ decimal d)))

-- An address of four bytes in dotted decimals is read as these bytes.
pub parse_ipv4_str-dotted :
    (a b c d : ℕ)
    → a < 256
    → b < 256
    → c < 256
    → d < 256
    → parse_ipv4_str (dotted a b c d) ≡ ok (a ∷ b ∷ c ∷ d ∷ [])
unfolding parse_ipv4_str ipv4_loop
parse_ipv4_str-dotted a b c d ha hb hc hd =
    rw
      (
        octet_digits 19 (replicate 4 0) 0 a false _ (omega arith) ha,
        octet_dot (replicate 4 0) 0 a (omega arith),
        octet_digits 19 (a ∷ replicate 3 0) 1 b false _ (omega arith) hb,
        octet_dot (a ∷ replicate 3 0) 1 b (omega arith),
        octet_digits 19 (a ∷ b ∷ replicate 2 0) 2 c false _ (omega arith) hc,
        octet_dot (a ∷ b ∷ replicate 2 0) 2 c (omega arith),
        sym (append-nil (decimal d)),
        octet_digits 19 (a ∷ b ∷ c ∷ 0 ∷ []) 3 d false [] (omega arith) hd,
      )
      refl
