-- ===== src/Tests.antt =====
-- Examples for the theorems on tokens and the configuration.
use motzworks.Prelude.{◌≡◌, refl, true, false, [], ◌∷◌, ◌++◌, some, none, nat_Eq}
use motzworks.Auth.Samples.{crypto, shift, int_code, put_text}
use motzworks.Prelude.Int.{pos, ltb_ℤ}
use motzworks.Text.{Text, lit, cut, text_eq}
use motzworks.Auth
use motzworks.Auth.{Claims, verify_token, sign, verify_token_sound, normalize_role, role_viewer}
use motzworks.Config.{Config, default, Env, missing, ok, apply_env, validate, load}
use motzworks.Text.Number.{atoi}

abbrev token : Text
token =
    shift (int_code (pos 100) (put_text [] (put_text [] (put_text [] []))))
    ++ b'.' ∷ shift (7 ∷ shift (int_code (pos 100) (put_text [] (put_text [] (put_text [] [])))))

abbrev nobody : Claims
nobody = record { user_id = []; username = []; role = []; expires = pos 100 }

token_test : verify_token crypto (7 ∷ []) (pos 100) token ≡ Auth.ok nobody
unfolding verify_token sign cut text_eq
token_test = refl

verify_token_sound_example :
    let (p, sig, dotted) = cut b'.' token in
    (dotted ≡ true)
    × (crypto.decode sig ≡ some (crypto.hmac (7 ∷ []) p))
    × (ltb_ℤ (pos 100) (pos 100) ≡ false)
verify_token_sound_example = verify_token_sound crypto (7 ∷ []) (pos 100) token nobody token_test

viewer_test : normalize_role [] ≡ some role_viewer
unfolding normalize_role lit text_eq
viewer_test = refl

-- Only the port is set, and the file is not there.
abbrev env : Env
env = record {
  db_host = [];
  db_port = lit "6543";
  db_user = [];
  db_password = [];
  db_name = [];
  db_sslmode = [];
  log_level = [];
  auth_secret = [];
}

abbrev with_port : Config
with_port = record default { database = record default.database { port = pos 6543 } }

load_test : load (λ t c. none) env (lit "motzworks.yaml") missing ≡ ok with_port
unfolding load lit default validate apply_env atoi
load_test = refl
