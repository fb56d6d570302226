-- ===== src/Sensors/Sht40/Detects.antt =====
-- What the check values of drivers/sht40.rs detect. What holds of all bytes is computed for each.
use mathlib.Core.Path.{◌∙◌}
use sleep_environment_monito.Prelude.{
  ℕ, zero, suc, ◌/◌, ◌+◌, ◌%◌, ◌<◌, ◌≡◌, ◌≢◌, refl, sym, ap, List, [], ◌∷◌, Bool, true, ◌&&◌,
  bit_xor, ◌==◌, ltb, if◌then◌else◌, Result, ok, err, arith, get_or, set, ne_test, eq_test,
  check_range, check_range_lem,
}
use sleep_environment_monito.Prelude.Bytes.{IsByte, IsBytes}
use sleep_environment_monito.Sensors.Sht40.{
  Sht40Error, invalid_temperature_crc, invalid_humidity_crc, crc8_rounds, crc8_from, crc8,
  parse_measurement,
}

-- The inverse of a round: an odd value has had the polynomial added.
unround : ℕ → ℕ
unround crc = if crc % 2 == 1 then bit_xor crc 0x31 / 2 + 128 else crc / 2

unrounds : ℕ → ℕ → ℕ
unrounds zero crc = crc
unrounds (suc n) crc = unrounds n (unround crc)

rounds_undone : ℕ → Bool
rounds_undone b = unrounds 8 (crc8_rounds 8 b) == b && ltb (crc8_rounds 8 b) 256

xor_undone : ℕ → ℕ → Bool
xor_undone a b =
    (bit_xor (bit_xor a b) a == b && bit_xor (bit_xor a b) b == a) && ltb (bit_xor a b) 256

rounds_table : check_range rounds_undone 256 ≡ true
unfolding check_range rounds_undone unrounds unround crc8_rounds
rounds_table = refl

xor_table : check_range (λ a. check_range (xor_undone a) 256) 256 ≡ true
unfolding check_range xor_undone
xor_table = refl

rounds_of_byte : (b : ℕ) → IsByte b → rounds_undone b ≡ true
rounds_of_byte b h = check_range_lem rounds_undone 256 b h rounds_table

xor_of_bytes : (a b : ℕ) → IsByte a → IsByte b → xor_undone a b ≡ true
xor_of_bytes a b h k =
    check_range_lem (xor_undone a) 256 b k
      (check_range_lem (λ x. check_range (xor_undone x) 256) 256 a h xor_table)

rounds-IsByte : (b : ℕ) → IsByte b → (unrounds 8 (crc8_rounds 8 b) ≡ b) × IsByte (crc8_rounds 8 b)
unfolding rounds_undone
rounds-IsByte b h = (ground (arith, rounds_of_byte b h), ground (arith, rounds_of_byte b h))

xor-IsByte :
    (a b : ℕ)
    → IsByte a
    → IsByte b
    → (bit_xor (bit_xor a b) a ≡ b) × (bit_xor (bit_xor a b) b ≡ a) × IsByte (bit_xor a b)
unfolding xor_undone
xor-IsByte a b h k =
    let e = xor_of_bytes a b h k in (ground (arith, e), ground (arith, e), ground (arith, e))

-- A byte taken into the check value.
step : ℕ → ℕ → ℕ
step crc byte = crc8_rounds 8 (bit_xor crc byte)

step-IsByte : (c b : ℕ) → IsByte c → IsByte b → IsByte (step c b)
unfolding step
step-IsByte c b h k = (rounds-IsByte (bit_xor c b) (xor-IsByte c b h k).2).1

step_same :
    (c b c' b' : ℕ)
    → IsByte c
    → IsByte b
    → IsByte c'
    → IsByte b'
    → step c b ≡ step c' b'
    → bit_xor c b ≡ bit_xor c' b'
unfolding step
step_same c b c' b' h k h' k' e =
    sym (rounds-IsByte (bit_xor c b) (xor-IsByte c b h k).2).0
    ∙ ap (unrounds 8) e
    ∙ (rounds-IsByte (bit_xor c' b') (xor-IsByte c' b' h' k').2).0

step-second : (c b b' : ℕ) → IsByte c → IsByte b → IsByte b' → step c b ≡ step c b' → b ≡ b'
step-second c b b' h k k' e =
    sym (xor-IsByte c b h k).0
    ∙ ap (λ x. bit_xor x c) (step_same c b c b' h k h k' e)
    ∙ (xor-IsByte c b' h k').0

step-first : (c c' b : ℕ) → IsByte c → IsByte c' → IsByte b → step c b ≡ step c' b → c ≡ c'
step-first c c' b h h' k e =
    sym (xor-IsByte c b h k).1
    ∙ ap (λ x. bit_xor x b) (step_same c b c' b h k h' k e)
    ∙ (xor-IsByte c' b h' k).1

crc8_of_word : (a b : ℕ) → crc8 (a ∷ b ∷ []) ≡ step (step 255 a) b
unfolding crc8 crc8_from step
crc8_of_word a b = refl

-- Of two bytes and their check value no single one can change unseen.
word_first :
    (a a' b : ℕ) → IsByte a → IsByte a' → IsByte b → crc8 (a ∷ b ∷ []) ≡ crc8 (a' ∷ b ∷ []) → a ≡ a'
word_first a a' b h h' k e = step-second 255 a a' (omega arith) h h' (
    step-first (step 255 a) (step 255 a') b (step-IsByte 255 a (omega arith) h)
      (step-IsByte 255 a' (omega arith) h') k (sym (crc8_of_word a b) ∙ e ∙ crc8_of_word a' b))

word_second :
    (a b b' : ℕ) → IsByte a → IsByte b → IsByte b' → crc8 (a ∷ b ∷ []) ≡ crc8 (a ∷ b' ∷ []) → b ≡ b'
word_second a b b' h k k' e =
    step-second (step 255 a) b b' (step-IsByte 255 a (omega arith) h) k k'
      (sym (crc8_of_word a b) ∙ e ∙ crc8_of_word a b')

module _ {Float : Type 0} (convert_temperature convert_humidity : ℕ → Float) where
  abbrev parse : List ℕ → Result Sht40Error (Float × Float)
  parse buf = parse_measurement convert_temperature convert_humidity buf

  parse_accepts :
      (a b c d e f : ℕ) (x : Float × Float)
      → parse (a ∷ b ∷ c ∷ d ∷ e ∷ f ∷ []) ≡ ok x
      → (crc8 (a ∷ b ∷ []) ≡ c) × (crc8 (d ∷ e ∷ []) ≡ f)
  unfolding parse_measurement
  parse_accepts a b c d e f x h = (ground (arith, h), ground (arith, h))

  bad_temperature :
      (a b c d e f : ℕ)
      → crc8 (a ∷ b ∷ []) ≢ c
      → (fault : Sht40Error) × (parse (a ∷ b ∷ c ∷ d ∷ e ∷ f ∷ []) ≡ err fault)
  unfolding parse_measurement
  bad_temperature a b c d e f h =
      (invalid_temperature_crc, rw (ne_test (crc8 (a ∷ b ∷ [])) c h, parse_measurement) refl)

  bad_humidity :
      (a b c d e f : ℕ)
      → crc8 (a ∷ b ∷ []) ≡ c
      → crc8 (d ∷ e ∷ []) ≢ f
      → (fault : Sht40Error) × (parse (a ∷ b ∷ c ∷ d ∷ e ∷ f ∷ []) ≡ err fault)
  unfolding parse_measurement
  bad_humidity a b c d e f g h = (
    invalid_humidity_crc,
    rw (eq_test (crc8 (a ∷ b ∷ [])) c g, ne_test (crc8 (d ∷ e ∷ [])) f h, parse_measurement) refl,
  )

  -- Of a frame of six bytes that is accepted, whatever its values stand for, a copy in which one
  -- byte is another is refused.
  pub single_byte_detected :
      (a b c d e f : ℕ) (x : Float × Float) (i v : ℕ)
      → IsBytes (a ∷ b ∷ c ∷ d ∷ e ∷ f ∷ [])
      → parse_measurement convert_temperature convert_humidity (a ∷ b ∷ c ∷ d ∷ e ∷ f ∷ []) ≡ ok x
      → i < 6
      → IsByte v
      → v ≢ get_or (a ∷ b ∷ c ∷ d ∷ e ∷ f ∷ []) i 0
      → (fault : Sht40Error) × (parse_measurement convert_temperature convert_humidity
            (set (a ∷ b ∷ c ∷ d ∷ e ∷ f ∷ []) i v)
          ≡ err fault)
  single_byte_detected a b c d e f x zero v (ha, (hb, (hc, (hd, (he, (hf, _)))))) h low k ne =
      let (front, back) = parse_accepts a b c d e f x h in
      bad_temperature v b c d e f (λ g. ne (word_first v a b k ha hb (g ∙ sym front)))
  single_byte_detected a b c d e f x (suc zero) v (ha, (hb, (hc, (hd, (he, (hf, _)))))) h low k ne =
      let (front, back) = parse_accepts a b c d e f x h in
      bad_temperature a v c d e f (λ g. ne (word_second a v b ha k hb (g ∙ sym front)))
  single_byte_detected a b c d e f x (suc (suc zero)) v bytes h low k ne =
      let (front, back) = parse_accepts a b c d e f x h in
      bad_temperature a b v d e f (λ g. ne (sym g ∙ front))
  single_byte_detected a b c d e f x (suc (suc (suc zero))) v (ha, (hb, (hc, (hd, (he, (hf, _))))))
        h low k ne =
      let (front, back) = parse_accepts a b c d e f x h in
      bad_humidity a b c v e f front (λ g. ne (word_first v d e k hd he (g ∙ sym back)))
  single_byte_detected a b c d e f x (suc (suc (suc (suc zero)))) v
        (ha, (hb, (hc, (hd, (he, (hf, _)))))) h low k ne =
      let (front, back) = parse_accepts a b c d e f x h in
      bad_humidity a b c d v f front (λ g. ne (word_second d v e hd k he (g ∙ sym back)))
  single_byte_detected a b c d e f x (suc (suc (suc (suc (suc zero))))) v bytes h low k ne =
      let (front, back) = parse_accepts a b c d e f x h in
      bad_humidity a b c d e v front (λ g. ne (sym g ∙ back))
  single_byte_detected a b c d e f x (suc (suc (suc (suc (suc (suc i)))))) v bytes h low k ne =
      absurd (omega (arith, low))
