-- ===== src/Config.antt =====
-- firmware/src/config.rs: the check of the WiFi credentials. The constants stand with the code
-- that reads them.
mod Tests
use sleep_environment_monito.Prelude.{
  ℕ, ◌≤◌, ◌≡◌, ◌≢◌, ◌↔◌, ◌⊎◌, inl, inr, refl, List, [], ◌∷◌, Bool, true, false, not, ◌&&◌, ◌||◌,
  ltb, leb, ◌==◌, if◌then◌else◌, Result, ok, err, arith, length, All, Bool-cases,
}

pub data AuthMode : Type 0 where
  open_network wpa_personal wpa2_personal wpa_wpa2_personal : AuthMode

pub data WifiConfigError : Type 0 where
  empty_ssid ssid_too_long open_network_with_password password_too_long password_too_short
        password_hex_required :
      WifiConfigError

abbrev pub ssid_max_bytes : ℕ
ssid_max_bytes = 32

abbrev pub password_min_bytes : ℕ
password_min_bytes = 8

abbrev pub password_max_bytes : ℕ
password_max_bytes = 64

-- `u8::is_ascii_hexdigit`
abbrev pub is_ascii_hexdigit : ℕ → Bool
is_ascii_hexdigit b =
    (leb b'0' b && leb b b'9') || ((leb b'A' b && leb b b'F') || (leb b'a' b && leb b b'f'))

unfoldable pub is_hex_password : List ℕ → Bool
is_hex_password [] = true
is_hex_password (b ∷ bytes) = is_ascii_hexdigit b && is_hex_password bytes

-- The arm of the three modes with a password.
unfoldable pub validate_password : List ℕ → Result WifiConfigError (Unit {0})
unfolding is_hex_password
validate_password password =
    if ltb (length password) password_min_bytes
    then err password_too_short
    else if ltb password_max_bytes (length password)
    then err password_too_long
    else if length password == password_max_bytes && not (is_hex_password password)
    then err password_hex_required
    else ok tt

unfoldable pub validate_credentials : List ℕ → List ℕ → AuthMode → Result WifiConfigError (Unit {0})
unfolding validate_password
validate_credentials ssid password auth_mode =
    if length ssid == 0
    then err empty_ssid
    else if ltb ssid_max_bytes (length ssid)
    then err ssid_too_long
    else elim auth_mode [
      | open_network ↦ if not (length password == 0) then err open_network_with_password else ok tt
      | wpa_personal ↦ validate_password password
      | wpa2_personal ↦ validate_password password
      | wpa_wpa2_personal ↦ validate_password password
    ]

abbrev pub IsHexDigit : ℕ → Type 0
IsHexDigit b = ((b'0' ≤ b) × (b ≤ b'9')) ⊎ (((b'A' ≤ b) × (b ≤ b'F')) ⊎ ((b'a' ≤ b) × (b ≤ b'f')))

-- A passphrase of 8 to 63 bytes, or a key of 64 hexadecimal digits
abbrev pub IsPassword : List ℕ → Type 0
IsPassword password =
    ((8 ≤ length password) × (length password ≤ 63))
    ⊎ ((length password ≡ 64) × All IsHexDigit password)

abbrev pub AreCredentials : List ℕ → List ℕ → AuthMode → Type 0
AreCredentials ssid password open_network =
    (1 ≤ length ssid) × (length ssid ≤ 32) × (length password ≡ 0)
AreCredentials ssid password _ = (1 ≤ length ssid) × (length ssid ≤ 32) × IsPassword password

is_ascii_hexdigit_iff : (b : ℕ) → (is_ascii_hexdigit b ≡ true) ↔ IsHexDigit b
is_ascii_hexdigit_iff b = (λ e. ground (arith, e), λ h. ground (arith, h))

is_hex_password_iff : (bytes : List ℕ) → (is_hex_password bytes ≡ true) ↔ All IsHexDigit bytes
unfolding is_hex_password
is_hex_password_iff [] = (λ _. tt, λ _. refl)
is_hex_password_iff (b ∷ bytes) =
    let (digit, is_digit) = is_ascii_hexdigit_iff b in
    let (digits, are_digits) = is_hex_password_iff bytes in
    elim (Bool-cases (is_ascii_hexdigit b)) [
      | inl e ↦ rw e (λ h. (digit e, digits h), λ h. are_digits h.1)
      | inr e ↦ rw e (λ h. absurd (cc (h)), λ h. absurd (cc (e, is_digit h.0)))
    ]

validate_password_iff :
    (password : List ℕ) → (validate_password password ≡ ok tt) ↔ IsPassword password
unfolding validate_password
validate_password_iff password =
    let (digits, are_digits) = is_hex_password_iff password in
    elim (Bool-cases (is_hex_password password)) [
      | inl e ↦ (λ h. ground (arith, e, h, digits e), λ h. ground (arith, e, h))
      | inr e ↦ (λ h. ground (arith, e, h), λ h. ground (arith, e, h, are_digits))
    ]

named_iff :
    (ssid : List ℕ) (rest : Result WifiConfigError (Unit {0})) {P : Type 0}
    → (rest ≡ ok tt) ↔ P
    → ((if length ssid == 0
          then err empty_ssid
          else if ltb ssid_max_bytes (length ssid)
          then err ssid_too_long
          else rest)
        ≡ ok tt)
      ↔ ((1 ≤ length ssid) × (length ssid ≤ 32) × P)
named_iff ssid rest (to, back) = (
  λ h. let e : rest ≡ ok tt = ground (arith, h) in (ground (arith, h), ground (arith, h), to e),
  λ h. ground (arith, h, back h.2),
)

-- Credentials pass the check exactly if the name of the network has 1 to 32 bytes and the password
-- is one of its mode: none for an open network, and else 8 to 63 bytes or 64 hexadecimal digits.
pub validate_credentials_iff :
    (ssid password : List ℕ) (auth_mode : AuthMode)
    → (validate_credentials ssid password auth_mode ≡ ok tt)
      ↔ AreCredentials ssid password auth_mode
unfolding validate_credentials
validate_credentials_iff ssid password open_network =
    named_iff ssid (if not (length password == 0) then err open_network_with_password else ok tt)
      (λ h. ground (arith, h), λ h. ground (arith, h))
validate_credentials_iff ssid password wpa_personal =
    named_iff ssid (validate_password password) (validate_password_iff password)
validate_credentials_iff ssid password wpa2_personal =
    named_iff ssid (validate_password password) (validate_password_iff password)
validate_credentials_iff ssid password wpa_wpa2_personal =
    named_iff ssid (validate_password password) (validate_password_iff password)
