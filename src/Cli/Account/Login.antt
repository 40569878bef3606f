-- ===== src/Cli/Account/Login.antt =====
-- cmd/motzworks/user.go, and the login of internal/api/server.go that follows.
use motzworks.Prelude.{
  ℕ, ◌≡◌, refl, sym, ap, ◌∙◌, subst, Bool, true, false, ◌||◌, List, [], ◌∷◌, ◌++◌, Option, none,
  some, arith, find_first, Bool-cases, Option-cases, inl, inr,
}
use motzworks.Text.{Text, lit, is_empty, text_eq, text_eq_iff}
use motzworks.Auth.{CryptoLaws, normalize_role}
use motzworks.Store.Accounts.{User, named, update_user, create_user, get_user_by_username}
use motzworks.Cli.{Checked, ok, err, then_check}
use motzworks.Api.Site.{Request, Cookie, Site, Server, World, good, get_user}
use motzworks.Api.Login.{handle_login, known_user}
use motzworks.Api.Login.Session.{IsAdmitted, handle_login_iff}
use motzworks.Cli.Account.{UserFlags, UserWorld, role_or, prepared, added, cmd_user}

-- The account that CreateUser leaves under its name.
record IsSaved (us : List User) (id username hash role : Text) (u : User) : Type 0 where
  by_name : get_user_by_username username us ≡ some u
  same_id : u.id ≡ id
  same_hash : u.password_hash ≡ hash
  same_role : u.role ≡ role

find_last {ℓ} :
    {A : Type ℓ} (p : A → Bool) (l : List A) (a : A)
    → find_first p l ≡ none
    → p a ≡ true
    → find_first p (l ++ a ∷ []) ≡ some a
find_last p [] a h e = rw e
find_last p (x ∷ l) a h e = ground (arith, find_last p l a)

module _ (username hash role : Text) where
  renewed : Option User → Option User
  renewed none = none
  renewed (some u) = some (record u { password_hash = hash; role = role })

  find_updated :
      (us : List User) (u : User)
      → find_first (named username) us ≡ some u
      → find_first (named username) (update_user username hash role us)
        ≡ some (record u { password_hash = hash; role = role })
  unfolding update_user renewed
  find_updated [] u h = cc
  find_updated (x ∷ us) u h = elim (Bool-cases (named username x)) [
    | inl e ↦ rw (e, e) (ap renewed (rw e at h))
    | inr e ↦ rw (e, e) (find_updated us u (rw e at h))
  ]

  create_user-IsSaved :
      (new_id : Text) (now : ℕ) (us : List User)
      → let r = create_user new_id now username hash role us in
        (u : User) × IsSaved r.1 r.0 username hash role u
  unfolding create_user get_user_by_username
  create_user-IsSaved new_id now us = elim (Option-cases (find_first (named username) us)) [
    | inl e ↦ (
      record {
        id = new_id;
        username = username;
        password_hash = hash;
        role = role;
        created_at = now;
        last_login_at = none;
      },
      rw e (record {
        by_name = find_last (named username) us _ e ((text_eq_iff username username).1 refl);
        same_id = refl;
        same_hash = refl;
        same_role = refl;
      }),
    )
    | inr (u, e) ↦ (
      record u { password_hash = hash; role = role },
      rw e (record {
        by_name = find_updated us u e;
        same_id = refl;
        same_hash = refl;
        same_role = refl;
      }),
    )
  ]

then_check-ok :
    {A : Type 0} {B : Type 0} (m : Checked A) (f : A → Checked B) (b : B)
    → then_check m f ≡ ok b
    → (a : A) × (m ≡ ok a) × (f a ≡ ok b)
then_check-ok (ok a) f b h = (a, refl, h)
then_check-ok (err e) f b h = absurd (ground arith)

value_or : {A : Type 0} → A → Checked A → A
value_or a (ok b) = b
value_or a (err e) = a

module _ (quote : Text → Text) (parse : List Text → UserFlags) (w : UserWorld) where
  -- What a command that gets as far as the database has computed.
  record IsPrepared (f : UserFlags) (role hash : Text) : Type 0 where
    role_ok : normalize_role f.role ≡ some role
    hash_ok : w.hash_password f.password ≡ ok hash

  role_given :
      (given role : Text) (o : Option Text)
      → role_or quote parse w given o ≡ ok role
      → o ≡ some role
  role_given given role none h = absurd (ground arith)
  role_given given role (some r) h = ground arith

  prepared-IsPrepared :
      (f : UserFlags) (role hash : Text)
      → prepared quote parse w f ≡ ok (role, hash)
      → IsPrepared f role hash
  unfolding value_or
  prepared-IsPrepared f role hash h =
      elim (Bool-cases (is_empty f.username || is_empty f.password)) [
        | inl e ↦ absurd (ground arith)
        | inr e ↦
            let (r, e1, h1) =
              then_check-ok (role_or quote parse w f.role (normalize_role f.role)) _ _
                (rw e at h) in
            let (cfg, e2, h2) = then_check-ok w.load _ _ h1 in
            let (hs, e3, h3) = then_check-ok (w.hash_password f.password) _ _ h2 in
            let (opened, e4, h4) = then_check-ok (w.open_store cfg) _ _ h3 in
            let same : ◌≡◌ {A = Text × Text} (r, hs) (role, hash) = ap (value_or (r, hs)) h4 in
            record {
              role_ok = role_given f.role r _ e1 ∙ ap (λ p. some p.0) same;
              hash_ok = e3 ∙ ap (λ p. ok p.1) same;
            }
      ]

  -- What a command that succeeds leaves.
  added-IsSaved :
      (f : UserFlags) (us : List User) (id : Text) (c : Checked (Text × Text))
      → prepared quote parse w f ≡ c
      → (added quote parse w f c us).0 ≡ ok id
      → (role hash : Text) × (u : User) × IsPrepared f role hash
        × IsSaved (added quote parse w f c us).1 id f.username hash role u
  unfolding value_or
  added-IsSaved f us id (err e) p h = absurd (ground arith)
  added-IsSaved f us id (ok (role, hash)) p h = elim (Option-cases w.insert_error) [
    | inr (e, failed) ↦ absurd (ground arith)
    | inl fine ↦
        let (u, saved) = create_user-IsSaved f.username hash role w.new_id w.now us in
        let same : (create_user w.new_id w.now f.username hash role us).0 ≡ id =
          ap (value_or []) (rw fine at h) in
        (
          role,
          hash,
          u,
          prepared-IsPrepared f role hash p,
          rw fine (
              subst
                (λ i.
                  IsSaved (create_user w.new_id w.now f.username hash role us).1 i f.username hash
                    role u)
                same saved),
        )
  ]

  -- If `user add` succeeds and prints an id, bcrypt accepts a password against its own hash,
  -- base64url decodes what it encodes and writes no dot, and claims survive JSON, then a login on
  -- the accounts that the command leaves, whose body decodes to the name and the password of its
  -- flags, sets a cookie if the database answers, and the account that it names has the printed id
  -- and the role that the flags normalise to.
  pub login-cmd_user :
      (args : List Text) (us : List User) (id : Text) (srv : Server) (web : World) (r : Request)
      (s : Site)
      → (cmd_user quote parse w (lit "add" ∷ args) us).0 ≡ ok id
      → ((hash : Text)
          → w.hash_password (parse args).password ≡ ok hash
          → web.check_password hash (parse args).password ≡ true)
      → CryptoLaws web.crypto
      → web.decode_login r.body
        ≡ good (record { username = (parse args).username; password = (parse args).password })
      → web.fails get_user ≡ false
      → s.users ≡ (cmd_user quote parse w (lit "add" ∷ args) us).1
      → (k : Cookie) × ((handle_login srv web r s).1.cookie ≡ some k)
        × (u : User) × (known_user srv web (parse args).username s ≡ some u)
        × (u.id ≡ id)
        × (normalize_role (parse args).role ≡ some u.role)
  unfolding cmd_user known_user IsAdmitted lit text_eq
  login-cmd_user args us id srv web r s h check laws body up same =
      let f = parse args in
      let (role, hash, u, p, saved) = added-IsSaved f us id (prepared quote parse w f) refl h in
      let known : known_user srv web f.username s ≡ some u = rw (up, same) saved.by_name in
      let right : web.check_password u.password_hash f.password ≡ true =
        rw saved.same_hash (check hash p.hash_ok) in
      let (k, e) =
        (handle_login_iff srv web r s laws).1
          (record { username = f.username; password = f.password }, u, (body, known, right)) in
      (k, e, u, known, saved.same_id, p.role_ok ∙ ap (λ x. some x) (sym saved.same_role))
