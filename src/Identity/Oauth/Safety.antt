-- ===== src/Identity/Oauth/Safety.antt =====
-- Nobody is let in but by the provider's answer to a login that this browser began.
use treadstone.Prelude.{
  ℕ, ◌≡◌, ◌∙◌, ap, refl, subst, Bool, true, false, Option, none, some, List, [], ◌∷◌, ◌&&◌, ◌||◌,
  find_first, ◌==◌, ==_iff, arith, inl, inr, Bool-cases, Option-cases,
}
use treadstone.Identity.Model.{User, Accounts, Error, bad_request, Result, ok, err, Result-cases}
use treadstone.Identity.Oauth.{
  OauthState, Callback, GithubEmail, OauthWorld, is_verified_email, verified_email,
  get_github_verified_identity, get_oauth_identity, lets_in, csrf_matches, flow_id_of,
  resolve_browser_return_to, fail_login, signed_in, allowed, with_identity, pending_flow, with_flow,
  identified, with_state, with_error, decoded, by_state, oauth_callback,
}

some_inj : {A : Type 0} {a b : A} → some a ≡ some b → a ≡ b
some_inj h = cc

-- Whether an address is on the list as one that is verified.
abbrev pub lists_verified : ℕ → List GithubEmail → Bool
lists_verified email [] = false
lists_verified email (e ∷ es) = (e.email == email && e.verified) || lists_verified email es

found-listed :
    (p : GithubEmail → Bool) (es : List GithubEmail) {e : GithubEmail}
    → ((f : GithubEmail) → p f ≡ true → f.verified ≡ true)
    → find_first p es ≡ some e
    → lists_verified e.email es ≡ true
found-listed p [] h found = cc
found-listed p (f ∷ es) {e} h found = elim (Bool-cases (p f)) [
  | inl passes ↦
      let same : f ≡ e = some_inj (rw passes at found) in
      subst (λ (x : GithubEmail). lists_verified x.email (f ∷ es) ≡ true) same
        (ground (arith, h f passes))
  | inr fails ↦ ground (arith, found-listed p es {e = e} h (rw fails at found))
]

verified_email-listed :
    (es : List GithubEmail) {email : ℕ}
    → verified_email es ≡ some email
    → lists_verified email es ≡ true
unfolding verified_email
verified_email-listed es {email} h =
    elim (Option-cases (find_first (λ e. e.primary && is_verified_email e) es)) [
      | inr (e, first) ↦ rw (← some_inj (rw first at h)) (
          found-listed (λ e. e.primary && is_verified_email e) es
            (λ f passes. ground (arith, passes)) first)
      | inl missing ↦ elim (Option-cases (find_first is_verified_email es)) [
        | inl nothing ↦ absurd (ground (arith, rw (missing, nothing) at h))
        | inr (e, first) ↦
            rw (← some_inj (rw (missing, first) at h))
              (found-listed is_verified_email es (λ f passes. ground (arith, passes)) first)
      ]
    ]

github-listed :
    (w : OauthWorld) (provider account email : ℕ)
    → get_oauth_identity w provider ≡ some (account, some email)
    → provider ≡ w.github
    → (emails : List GithubEmail) × (w.github_profile ≡ some (account, emails))
      × (lists_verified email emails ≡ true)
unfolding get_oauth_identity
github-listed w provider account email h is_github =
    let asked : get_github_verified_identity w.github_profile ≡ some (account, some email) =
      rw ((==_iff provider w.github).1 is_github) at h in
    elim (Option-cases w.github_profile) [
      | inl failed ↦ absurd (ground (arith, rw failed at asked))
      | inr ((id, emails), answered) ↦
          let both : (id, verified_email emails) ≡ (account, some email) =
            some_inj (rw answered at asked) in
          (
            emails,
            answered ∙ ap (λ n. some (n, emails)) (ap (λ (x : ℕ × Option ℕ). x.0) both),
            verified_email-listed emails (ap (λ (x : ℕ × Option ℕ). x.1) both),
          )
    ]

-- The provider gave a code and no error; the state is signed, for this provider, and its token is
-- the one in the browser's cookie; the provider answered an account with an email, which for GitHub
-- is on the account's list as verified, and fastapi-users has a user for it.
pub record IsProven (w : OauthWorld) (c : Callback) (db : Accounts) : Type 0 where
  pub state : ℕ
  pub payload : OauthState
  pub code : ℕ
  pub account : ℕ
  pub email : ℕ
  pub user : User
  pub committed : Accounts
  pub no_error : c.error ≡ none
  pub has_code : c.code ≡ some code
  pub has_state : c.state ≡ some state
  pub is_signed : w.decode state ≡ some payload
  pub same_provider : payload.provider ≡ c.provider
  pub same_csrf : csrf_matches c payload ≡ true
  pub has_identity : get_oauth_identity w c.provider ≡ some (account, some email)
  pub lists_email :
      c.provider ≡ w.github
      → (emails : List GithubEmail) × (w.github_profile ≡ some (account, emails))
        × (lists_verified email emails ≡ true)
  pub has_user : w.sign_in db ≡ some (user, committed)

fail_login-refuses :
    (w : OauthWorld) (flow_id return_to : Option ℕ) (e : Error) (db : Accounts)
    → lets_in (fail_login w flow_id return_to e db).0 ≡ false
unfolding fail_login
fail_login-refuses w (some flow_id) return_to e db = refl
fail_login-refuses w none (some return_to) e db = refl
fail_login-refuses w none none e db = refl

abbrev HasUser : OauthWorld → Accounts → Type 0
HasUser w db = (user : User) × (committed : Accounts) × (w.sign_in db ≡ some (user, committed))

signed_in-HasUser :
    (w : OauthWorld) (provider email : ℕ) (flow_id return_to : Option ℕ) (registered linked : Bool)
    (db : Accounts)
    → (r : Result (Unit {0}))
    → lets_in (allowed w provider email flow_id return_to registered linked db r).0 ≡ true
    → HasUser w db
unfolding signed_in
signed_in-HasUser w provider email flow_id return_to registered linked db (err e) h = cc
signed_in-HasUser w provider email flow_id return_to registered linked db (ok u) h =
    elim (Option-cases (w.sign_in db)) [
      | inl nobody ↦ absurd (ground (arith, rw nobody at h))
      | inr ((user, committed), found) ↦ (user, committed, found)
    ]

with_flow-HasUser :
    (w : OauthWorld) (provider email : ℕ) (flow_id return_to : Option ℕ) (db : Accounts)
    (r : Result (Unit {0}))
    → lets_in (with_flow w provider email flow_id return_to db r).0 ≡ true
    → HasUser w db
unfolding with_identity
with_flow-HasUser w provider email flow_id return_to db (err e) h = cc
with_flow-HasUser w provider email flow_id return_to db (ok u) h =
    signed_in-HasUser w provider email flow_id return_to _ _ db _ h

abbrev HasIdentity : OauthWorld → Accounts → Option (ℕ × Option ℕ) → Type 0
HasIdentity w db identity =
    (account : ℕ) × (email : ℕ) × (identity ≡ some (account, some email)) × HasUser w db

identified-HasIdentity :
    (w : OauthWorld) (provider : ℕ) (flow_id return_to : Option ℕ)
    (identity : Option (ℕ × Option ℕ)) (db : Accounts)
    → lets_in (identified w provider flow_id return_to identity db).0 ≡ true
    → HasIdentity w db identity
unfolding identified
identified-HasIdentity w provider flow_id return_to none db h =
    absurd (ground (arith, h, fail_login-refuses w flow_id return_to bad_request db))
identified-HasIdentity w provider flow_id return_to (some (account, none)) db h =
    absurd (ground (arith, h, fail_login-refuses w flow_id return_to bad_request db))
identified-HasIdentity w provider flow_id return_to (some (account, some email)) db h = (
  account,
  email,
  refl,
  with_flow-HasUser w provider email flow_id return_to db (pending_flow w flow_id db) h,
)

with_state-IsProven :
    (w : OauthWorld) (c : Callback) (state code : ℕ) (payload : OauthState) (return_to : Option ℕ)
    (db : Accounts)
    → c.error ≡ none
    → c.code ≡ some code
    → c.state ≡ some state
    → w.decode state ≡ some payload
    → payload.provider ≡ c.provider
    → lets_in (with_state w c payload return_to db).0 ≡ true
    → IsProven w c db
unfolding with_state
with_state-IsProven w c state code payload return_to db no_error has_code has_state is_signed same
      h =
    elim (Bool-cases (csrf_matches c payload)) [
      | inr differs ↦ absurd (
          ground (
            arith,
            rw differs at h,
            fail_login-refuses w (flow_id_of (some payload)) return_to bad_request db,
          ))
      | inl same_csrf ↦
          let (account, email, has_identity, (user, committed, has_user)) =
            identified-HasIdentity w c.provider (flow_id_of (some payload)) return_to
              (get_oauth_identity w c.provider) db (rw same_csrf at h) in
          record {
            state = state;
            payload = payload;
            code = code;
            account = account;
            email = email;
            user = user;
            committed = committed;
            no_error = no_error;
            has_code = has_code;
            has_state = has_state;
            is_signed = is_signed;
            same_provider = same;
            same_csrf = same_csrf;
            has_identity = has_identity;
            lists_email = github-listed w c.provider account email has_identity;
            has_user = has_user;
          }
    ]

module _ (w : OauthWorld) (c : Callback) (db : Accounts) where
  with_error-IsProven :
      (state : ℕ) (payload : OauthState) (return_to : Option ℕ)
      → c.state ≡ some state
      → w.decode state ≡ some payload
      → payload.provider ≡ c.provider
      → lets_in (with_error w c (some payload) return_to c.error db).0 ≡ true
      → IsProven w c db
  unfolding with_state
  with_error-IsProven state payload return_to has_state is_signed same h =
      elim (Option-cases c.error) [
        | inr (e, failed) ↦ absurd (
            ground (
              arith,
              rw failed at h,
              fail_login-refuses w (flow_id_of (some payload)) return_to bad_request db,
            ))
        | inl no_error ↦ elim (Option-cases c.code) [
          | inl no_code ↦ absurd (ground (arith, rw no_code at (rw no_error at h)))
          | inr (code, has_code) ↦
              with_state-IsProven w c state code payload return_to db no_error has_code has_state
                is_signed same (rw has_code at (rw no_error at h))
        ]
      ]

  decoded-IsProven :
      (state : ℕ) (payload : OauthState)
      → c.state ≡ some state
      → w.decode state ≡ some payload
      → lets_in (decoded w c (some payload) db).0 ≡ true
      → IsProven w c db
  unfolding decoded
  decoded-IsProven state payload has_state is_signed h =
      elim (Bool-cases (payload.provider == c.provider)) [
        | inr differs ↦ absurd (ground (arith, rw differs at h))
        | inl same ↦ elim (Result-cases (resolve_browser_return_to w c (some payload))) [
          | inl (e, refused) ↦ absurd (ground (arith, rw refused at (rw same at h)))
          | inr (return_to, valid) ↦
              with_error-IsProven state payload return_to has_state is_signed
                ((==_iff payload.provider c.provider).0 same) (rw valid at (rw same at h))
        ]
      ]

  undecoded-refuses : lets_in (decoded w c none db).0 ≡ false
  unfolding decoded
  undecoded-refuses = elim (Result-cases (resolve_browser_return_to w c none)) [
    | inl (e, refused) ↦ rw refused refl
    | inr (r, valid) ↦ elim (Option-cases r) [
      | inl nowhere ↦ rw (valid, nowhere) refl
      | inr (url, there) ↦ rw (valid, there) refl
    ]
  ]

  stateless-refuses : lets_in (by_state w c none db).0 ≡ false
  stateless-refuses = elim (Result-cases (resolve_browser_return_to w c none)) [
    | inl (e, refused) ↦ rw refused refl
    | inr (r, valid) ↦ elim (Option-cases c.error) [
      | inl no_error ↦ elim (Option-cases c.code) [
        | inl no_code ↦ rw (valid, no_error, no_code) refl
        | inr (code, has_code) ↦ rw (valid, no_error, has_code) refl
      ]
      | inr (e, failed) ↦ rw (valid, failed) (fail_login-refuses w none r bad_request db)
    ]
  ]

  -- A callback signs a user in, or approves a flow of the command line, only if the provider gave
  -- no error but a code; the state is signed, for this provider, and holds the token that is in the
  -- cookie of the browser; and the provider answered an account with an email, for which there is a
  -- user. An email from GitHub is one that GitHub lists as verified.
  pub oauth_callback-IsProven : lets_in (oauth_callback w c db).0 ≡ true → IsProven w c db
  unfolding oauth_callback
  oauth_callback-IsProven h = elim (Option-cases c.state) [
    | inl no_state ↦ absurd (ground (arith, rw no_state at h, stateless-refuses))
    | inr (state, has_state) ↦ elim (Option-cases (w.decode state)) [
      | inl unsigned ↦
          absurd (ground (arith, rw unsigned at (rw has_state at h), undecoded-refuses))
      | inr (payload, is_signed) ↦
          decoded-IsProven state payload has_state is_signed (rw is_signed at (rw has_state at h))
    ]
  ]
