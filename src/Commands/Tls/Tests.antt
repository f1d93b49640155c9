-- ===== src/Commands/Tls/Tests.antt =====
-- A certificate without a key of its own, and a root certificate. Every file holds its name.
use vegeta.Prelude.{◌≡◌, refl, true, Option, none, [], ◌∷◌, map, Bool, not}
use vegeta.Prelude.Text.{Text, codes, is_empty}
use vegeta.Outcome.{Fallible, ok}
use vegeta.Commands.Tls.{tls_config}
use vegeta.Commands.Tls.Loads.{pair_of, tls_config-loads}

abbrev read_file : Text → Fallible Text Text
read_file f = ok f

abbrev key_pair_error : Text → Text → Option Text
key_pair_error cert key = none

abbrev is_pem : Text → Bool
is_pem c = not (is_empty c)

tls_config-loads_example :
    tls_config read_file key_pair_error is_pem true (codes "cert") [] (codes "root" ∷ [])
    ≡ ok (record {
      insecure_skip_verify = true;
      certificate = pair_of read_file key_pair_error is_pem (λ f. f) (codes "cert") [];
      root_certificates = map (λ f. f) (codes "root" ∷ []);
    })
tls_config-loads_example =
    tls_config-loads read_file key_pair_error is_pem (λ f. f) true (codes "cert") []
      (codes "root" ∷ []) (λ h. refl, (λ h. refl, (λ h. refl, tt))) (λ h. refl) ((refl, refl), tt)
