-- ===== src/Web.antt =====
-- What the HTTP collectors share: internal/collector/proxmox/proxmox.go, opnsense/opnsense.go,
-- fortigate/fortigate.go and fritzbox/fritzbox.go. The client of net/http is a parameter: what it
-- answers to a request. A body is the sequence of its bytes.
pub mod Proxmox
pub mod Opnsense
pub mod Fortigate
pub mod Fritzbox
pub mod Quiet
pub mod Moved
mod Tests
use motzworks.Prelude.{
  ℕ, zero, suc, ◌*◌, List, [], ◌∷◌, ◌++◌, Option, none, some, if◌then◌else◌, nat_eq, find_first,
}
use motzworks.Text.{Text, lit, text_eq}
use motzworks.Text.Number.{decimal}
use motzworks.Collector.{Credential}

-- How a request identifies itself.
pub data Login : Type 0 where
  anonymous : Login
  authorization : Text → Login
  basic : Text → Text → Login

pub record Request : Type 0 where
  pub url : Text
  pub login : Login

-- An error of the client, or a response with its status and what can be read of its body: up to an
-- error, if there is one.
pub data Reply : Type 0 where
  broken : Text → Reply
  response : ℕ → Text → Option Text → Reply

-- `(value, error)`
pub data Tried {ℓ} (A : Type ℓ) : Type ℓ where
  ok : A → Tried A
  err : Text → Tried A

-- io.LimitReader
unfoldable pub limited : ℕ → Text → Text
limited zero s = []
limited (suc n) [] = []
limited (suc n) (c ∷ s) = c ∷ limited n s

-- `if port == 0 { port = usual }`
abbrev pub port_or : ℕ → ℕ → ℕ
port_or usual port = if nat_eq port 0 then usual else port

-- fmt.Sprintf("https://%s:%d", host, port)
unfoldable pub https_base : Text → ℕ → Text
unfolding lit
https_base host port = lit "https://" ++ (host ++ (lit ":" ++ decimal port))

-- The end of apiGet, apiGetBasic and apiGetBearer: an error while the body is read is dropped.
unfoldable pub body_of : Reply → Tried Text
unfolding lit
body_of (broken e) = err e
body_of (response status body e) =
    if nat_eq status 200
    then ok (limited (8 * 1_048_576) body)
    else err (lit "http " ++ decimal status)

-- The loop of each pickCredential.
abbrev pub first_of_kind : Text → List Credential → Option Credential
first_of_kind kind = find_first (λ cr. text_eq cr.kind kind)
