-- ===== src/Upload/Decimal.antt =====
-- Integers as decimal text: `write!(writer, "{}", n)`, and the loop that parse.rs and http.rs of
-- tasks/upload read digits with.
use sleep_environment_monito.Prelude.{
  ℕ, zero, suc, ◌+◌, ◌-◌, ◌*◌, ◌/◌, ◌%◌, ◌^◌, ◌≤◌, ◌<◌, ◌≡◌, refl, ap, ◌∙◌, List, [], ◌∷◌, ◌++◌,
  append_assoc, Bool, true, ◌&&◌, Option, none, some, arith, ltb, leb, if◌then◌else◌, checked_add,
  checked_mul, length, length-append, All, All-append,
}
use native.Mathlib.Nat.{pow-suc}
use native.Mathlib.Decide.{dec_lt}

unfoldable pub digits : ℕ → ℕ → List ℕ
digits zero n = []
digits (suc fuel) n =
    let front = digits fuel (n / 10) in
    if ltb n 10 then (b'0' + n) ∷ [] else front ++ (b'0' + n % 10) ∷ []

-- The integers of the firmware have 64 bits at most, and then 20 digits.
abbrev pub decimal : ℕ → List ℕ
decimal = digits 20

-- `u8::is_ascii_digit`
abbrev pub is_ascii_digit : ℕ → Bool
is_ascii_digit b = leb b'0' b && leb b b'9'

-- `parsed.checked_mul(10).and_then(|v| v.checked_add(digit))` of the integers up to `limit`
unfoldable pub add_digit : ℕ → ℕ → ℕ → Option ℕ
add_digit limit parsed b = elim (checked_mul limit parsed 10) [
  | none ↦ none
  | some tens ↦ checked_add limit tens (b - b'0')
]

-- The loop over `parsed` and `consumed`; `none` is an overflow.
unfoldable pub scan_digits : ℕ → ℕ → Bool → List ℕ → Option (ℕ × Bool)
unfolding add_digit
scan_digits limit parsed consumed [] = some (parsed, consumed)
scan_digits limit parsed consumed (b ∷ bytes) =
    if is_ascii_digit b
    then (elim (add_digit limit parsed b) [
      | none ↦ none
      | some parsed' ↦ scan_digits limit parsed' true bytes
    ])
    else some (parsed, consumed)

-- One more digit.
scan_digit :
    (limit parsed n : ℕ) (consumed : Bool) (rest : List ℕ)
    → parsed ≡ n / 10
    → n ≤ limit
    → scan_digits limit parsed consumed ((b'0' + n % 10) ∷ rest) ≡ scan_digits limit n true rest
unfolding scan_digits add_digit
scan_digit limit parsed n consumed rest e fits = ground (arith, e)

pub digits_short : (fuel n : ℕ) → n < 10 → digits (suc fuel) n ≡ (b'0' + n % 10) ∷ []
unfolding digits
digits_short fuel n h = ground arith

pub digits_long :
    (fuel n : ℕ) → 10 ≤ n → digits (suc fuel) n ≡ digits fuel (n / 10) ++ (b'0' + n % 10) ∷ []
unfolding digits
digits_long fuel n h = ground arith

-- Reading the digits of `n` from nothing gives `n` and goes on behind them.
pub scan_digits-digits :
    (fuel limit n : ℕ) (consumed : Bool) (rest : List ℕ)
    → n < 10 ^ suc fuel
    → n ≤ limit
    → scan_digits limit 0 consumed (digits (suc fuel) n ++ rest) ≡ scan_digits limit n true rest
scan_digits-digits zero limit n consumed rest h fits =
    rw (digits_short 0 n (omega arith)) (scan_digit limit 0 n consumed rest (omega arith) fits)
scan_digits-digits (suc fuel) limit n consumed rest h fits =
    let h' : n < 10 ^ suc fuel * 10 = rw (pow-suc 10 (suc fuel)) at h in
    elim (dec_lt n 10) [
      | yes short ↦
          rw (digits_short (suc fuel) n short)
            (scan_digit limit 0 n consumed rest (omega arith) fits)
      | no long ↦
          rw
            (
              digits_long (suc fuel) n (omega arith),
              append_assoc (digits (suc fuel) (n / 10)) ((b'0' + n % 10) ∷ []) rest,
              scan_digits-digits fuel limit (n / 10) consumed ((b'0' + n % 10) ∷ rest) (omega arith)
                  (omega arith),
            )
            (scan_digit limit (n / 10) n true rest refl fits)
    ]

pub length-digits : (fuel n : ℕ) → length (digits fuel n) ≤ fuel
unfolding digits
length-digits zero n = omega arith
length-digits (suc fuel) n = ground (
  arith,
  length-digits fuel (n / 10),
  length-append (digits fuel (n / 10)) ((b'0' + n % 10) ∷ []),
)

abbrev pub IsDigit : ℕ → Type 0
IsDigit b = (b'0' ≤ b) × (b ≤ b'9')

pub digits-IsDigit : (fuel n : ℕ) → All IsDigit (digits fuel n)
unfolding digits
digits-IsDigit zero n = tt
digits-IsDigit (suc fuel) n = ground (
  arith,
  All-append IsDigit (digits fuel (n / 10)) ((b'0' + n % 10) ∷ []) (digits-IsDigit fuel (n / 10)),
)

-- The text of an integer begins with a digit.
pub digits_cons :
    (fuel n : ℕ) → (d : ℕ) × (more : List ℕ) × (digits (suc fuel) n ≡ d ∷ more) × IsDigit d
unfolding digits
digits_cons zero n = elim (dec_lt n 10) [
  | yes short ↦ (b'0' + n % 10, [], digits_short 0 n short, (omega arith, omega arith))
  | no long ↦ (b'0' + n % 10, [], digits_long 0 n (omega arith), (omega arith, omega arith))
]
digits_cons (suc fuel) n = elim (dec_lt n 10) [
  | yes short ↦ (b'0' + n % 10, [], digits_short (suc fuel) n short, (omega arith, omega arith))
  | no long ↦
      let (d, more, e, digit) = digits_cons fuel (n / 10) in
      (
        d,
        more ++ (b'0' + n % 10) ∷ [],
        digits_long (suc fuel) n (omega arith) ∙ ap (λ l. l ++ (b'0' + n % 10) ∷ []) e,
        digit,
      )
]

-- A number below a power of ten has as many digits at most.
pub length-digits_le : (k fuel n : ℕ) → n < 10 ^ suc k → length (digits fuel n) ≤ suc k
unfolding digits
length-digits_le k zero n h = omega arith
length-digits_le zero (suc fuel) n h = ground arith
length-digits_le (suc k) (suc fuel) n h =
    let h' : n < 10 ^ suc k * 10 = rw (pow-suc 10 (suc k)) at h in
    ground (
      arith,
      length-digits_le k fuel (n / 10) (omega arith),
      length-append (digits fuel (n / 10)) ((b'0' + n % 10) ∷ []),
    )
