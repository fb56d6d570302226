-- ===== src/Config/Tests.antt =====
-- The check of config.rs on a key of 64 hexadecimal digits.
use sleep_environment_monito.Prelude.{◌≡◌, ◌↔◌, refl, ok, err, replicate}
use sleep_environment_monito.Prelude.Texts.{codes}
use sleep_environment_monito.Config.{
  AreCredentials, open_network, wpa2_personal, open_network_with_password, validate_credentials,
  validate_credentials_iff,
}

password_on_open :
    validate_credentials (codes "FZU") (codes "password") open_network
    ≡ err open_network_with_password
unfolding validate_credentials
password_on_open = refl

validate_credentials_iff_example :
    (validate_credentials (codes "FZU") (replicate 64 b'a') wpa2_personal ≡ ok tt)
    ↔ AreCredentials (codes "FZU") (replicate 64 b'a') wpa2_personal
validate_credentials_iff_example =
    validate_credentials_iff (codes "FZU") (replicate 64 b'a') wpa2_personal
