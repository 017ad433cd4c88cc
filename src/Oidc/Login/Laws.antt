-- ===== src/Oidc/Login/Laws.antt =====
-- Who gets past the sign-in screen, and what consent does.
use griya_maya.Base.{
  ℕ, ◌≡◌, refl, sym, subst, ◌⊎◌, inl, inr, true, false, not, List, [], ◌∷◌, keep, is_empty, Option,
  none, some, arith, Bool-cases,
}
use griya_maya.Text.{Str, str, str_eq}
use griya_maya.Effect.{
  Error, email_not_verified, Outcome, World, Result, ok, err, query, exec, call,
}
use griya_maya.Effect.Laws.{Post, Post-query, Post-seq, world}
use griya_maya.Repo.Reads.{first}
use griya_maya.Oidc.Users.{
  AdminUser, Directory, Passwords, first_user, user_by_email, verify_user, admit,
}
use griya_maya.Oidc.Scopes.{missing_scopes}
use griya_maya.Oidc.Consent.{Consent, consent_scopes, granted, save_consent}
use griya_maya.Oidc.Consent.Laws.{save_consent_lem}
use griya_maya.Oidc.Requests.{
  AuthRequest, Provider, request_with, put_request, auth_request_by_id, set_auth_request_user,
  finish_auth_request_amr, finish_auth_request,
}
use griya_maya.Oidc.Login.{
  under_review, wrong_credentials, callback, post_username, after_verify, rejected, consent,
}

module _ (ps : Passwords) (email password : Str) (s : Directory) where
  -- an account that may sign in
  abbrev pub MaySignIn : Str → Type 0
  MaySignIn uid =
      (u : AdminUser) × (first_user (λ v. str_eq v.email email) s ≡ some u)
      × (ps.verify password u.password_hash ≡ true)
      × (u.email_verified ≡ true)
      × (u.id ≡ uid)

  pub verify_user-MaySignIn :
      (os : List Outcome)
      → Post
          (λ uid w. MaySignIn uid × (w.store ≡ s))
          (λ _ w. w.store ≡ s)
          (verify_user ps email password (world s os))
  unfolding verify_user user_by_email
  verify_user-MaySignIn os =
      Post-seq (λ o w. (o ≡ first_user (λ v. str_eq v.email email) s) × (w.store ≡ s))
        (λ uid w. MaySignIn uid × (w.store ≡ s)) (λ _ w. w.store ≡ s)
        (query (first_user λ v. str_eq v.email email) (world s os)) _
        (Post-query (λ o w. (o ≡ first_user (λ v. str_eq v.email email) s) × (w.store ≡ s))
          (λ _ w. w.store ≡ s) (first_user λ v. str_eq v.email email) (world s os)
          (λ os. (refl, refl)) (λ os. refl))
        λ o w (is_found, same). by_found o w is_found same
    where
      by_found :
          (o : Option AdminUser) (w : World Directory)
          → o ≡ first_user (λ v. str_eq v.email email) s
          → w.store ≡ s
          → Post
              (λ uid w. MaySignIn uid × (w.store ≡ s))
              (λ _ w. w.store ≡ s)
              (admit ps password o w)
      by_found none w found same = same
      by_found (some u) w found same = elim (Bool-cases (ps.verify password u.password_hash)) [
        | inr wrong ↦ rw wrong same
        | inl right ↦ elim (Bool-cases u.email_verified) [
          | inr pending ↦ rw (right, pending) same
          | inl verified ↦ rw (right, verified) ((u, sym found, right, verified, refl), same)
        ]
      ]

-- A sign-in, whatever its calls come to, changes nothing and shows that the credentials are wrong or
-- that the account is under review, or else the address is that of an account which is verified and
-- whose hash the password passes.
pub post_username-MaySignIn :
    (ps : Passwords) (id email password : Str) (now : ℕ) (s : Provider) (os : List Outcome)
    → ((((post_username ps id email password now (world s os)).0 ≡ wrong_credentials)
          ⊎ ((post_username ps id email password now (world s os)).0 ≡ under_review))
        × ((post_username ps id email password now (world s os)).1.store ≡ s))
      ⊎ ((uid : Str) × MaySignIn ps email password s.directory uid)
unfolding post_username
post_username-MaySignIn ps id email password now s os =
    by_result (verify_user ps email password (world s.directory os))
      (verify_user-MaySignIn ps email password s.directory os)
  where
    zoomed : Result Str × World Directory → Result Str × World Provider
    zoomed (r, v) = (r, record { store = record s { directory = v.store }; outcomes = v.outcomes })

    by_result :
        (r : Result Str × World Directory)
        → Post
            (λ uid w. MaySignIn ps email password s.directory uid × (w.store ≡ s.directory))
            (λ _ w. w.store ≡ s.directory)
            r
        → ((((after_verify id now (zoomed r)).0 ≡ wrong_credentials)
              ⊎ ((after_verify id now (zoomed r)).0 ≡ under_review))
            × ((after_verify id now (zoomed r)).1.store ≡ s))
          ⊎ ((uid : Str) × MaySignIn ps email password s.directory uid)
    by_result (ok uid, v) (may, same) = inr (uid, may)
    by_result (err e, v) same = inl (shown e, rw same refl)
      where
        shown : (e : Error) → (rejected e ≡ wrong_credentials) ⊎ (rejected e ≡ under_review)
        shown email_not_verified = inr refl
        shown _ = inl refl

abbrev pub done_at : ℕ → AuthRequest → AuthRequest
done_at now a = record a { is_done = true; auth_time = now; auth_method = str "pwd" }

abbrev pub replaced : AuthRequest → Provider → Provider
replaced a s = record s { requests = a ∷ keep (λ r. not (str_eq r.id a.id)) s.requests }

request_id :
    (id : Str) (rs : List AuthRequest) (a : AuthRequest)
    → first (keep (λ r. str_eq r.id id) rs) ≡ some a
    → str_eq a.id id ≡ true
request_id id [] a h = absurd cc
request_id id (r ∷ rs) a h = elim (Bool-cases (str_eq r.id id)) [
  | inl e ↦ ground arith
  | inr e ↦ request_id id rs a (ground arith)
]

request_replaced :
    (id : Str) (a : AuthRequest) (s : Provider)
    → str_eq a.id id ≡ true
    → request_with id (replaced a s) ≡ some a
request_replaced id a s e = rw e refl

finish_runs :
    (id : Str) (now : ℕ) (s : Provider) (a : AuthRequest)
    → request_with id s ≡ some a
    → finish_auth_request id now (world s []) ≡ (ok tt, world (replaced (done_at now a) s) [])
unfolding finish_auth_request finish_auth_request_amr auth_request_by_id put_request query exec call
finish_runs id now s a found = rw found refl

-- When no call fails, the approval of a request to which nobody has signed in finishes it all the
-- same: the browser is sent to the callback, and the request is done with no user.
pub consent_anonymous :
    (id : Str) (now : ℕ) (s : Provider) (a : AuthRequest)
    → request_with id s ≡ some a
    → is_empty a.user_id ≡ true
    → ((consent id (str "approve") now (world s [])).0 ≡ callback id)
      × (request_with id (consent id (str "approve") now (world s [])).1.store
          ≡ some (record a { is_done = true; auth_time = now; auth_method = str "pwd" }))
unfolding consent auth_request_by_id query call str_eq
consent_anonymous id now s a found nobody =
    rw (found, nobody, finish_runs id now s a found)
      (refl, request_replaced id (done_at now a) s (request_id id s.requests a found))

abbrev saved_consents : AuthRequest → Provider → List Consent
saved_consents a s =
    (save_consent a.user_id a.application_id a.scopes (world s.consents [])).1.store

consent_runs :
    (id : Str) (now : ℕ) (s : Provider) (a : AuthRequest)
    → request_with id s ≡ some a
    → is_empty a.user_id ≡ false
    → consent id (str "approve") now (world s []) ≡ (
      callback id,
      world (replaced (done_at now a) (record s { consents = saved_consents a s })) [],
    )
unfolding consent auth_request_by_id save_consent consent_scopes query exec call str_eq
consent_runs id now s a found somebody =
    rw (found, somebody, finish_runs id now (record s { consents = saved_consents a s }) a found)
      refl

module _ (ps : Passwords) (email password id : Str) (later : ℕ) (t : Provider) where
  abbrev assigned : Str → AuthRequest → AuthRequest
  assigned uid b = record b { user_id = uid }

  set_user_runs :
      (uid : Str) (b : AuthRequest)
      → request_with id t ≡ some b
      → set_auth_request_user id uid (world t []) ≡ (ok tt, world (replaced (assigned uid b) t) [])
  unfolding set_auth_request_user auth_request_by_id put_request query exec call
  set_user_runs uid b found = rw found refl

  by_id_runs :
      (s : Provider) (b : AuthRequest)
      → request_with id s ≡ some b
      → auth_request_by_id id (world s []) ≡ (ok b, world s [])
  unfolding auth_request_by_id query call
  by_id_runs s b found = rw found refl

  verify_runs :
      (uid : Str)
      → MaySignIn ps email password t.directory uid
      → verify_user ps email password (world t.directory []) ≡ (ok uid, world t.directory [])
  unfolding verify_user user_by_email query call
  verify_runs uid (u, found, right, verified, is_uid) = rw (found, right, verified, is_uid) refl

  -- a sign-in of a user who has granted every scope of the request
  sign_in_runs :
      (uid : Str) (b : AuthRequest)
      → MaySignIn ps email password t.directory uid
      → request_with id t ≡ some b
      → missing_scopes b.scopes (granted uid b.application_id t.consents) ≡ []
      → (post_username ps id email password later (world t [])).0 ≡ callback id
  unfolding post_username consent_scopes query call
  sign_in_runs uid b may found complete =
      let mine = request_id id t.requests b found in
      let set : request_with id (replaced (assigned uid b) t) ≡ some (assigned uid b) =
        request_replaced id (assigned uid b) t mine in
      rw
        (
          verify_runs uid may,
          set_user_runs uid b found,
          by_id_runs (replaced (assigned uid b) t) (assigned uid b) set,
          complete,
          finish_runs id later (replaced (assigned uid b) t) (assigned uid b) set,
        )
        refl

-- When no call fails, the approval of a signed-in request is remembered: a later sign-in with the
-- right password of the same verified user to a request of the same client with the same scopes is
-- sent to the callback without a consent form.
pub consent_remembered :
    (ps : Passwords) (id id' email password : Str) (now later : ℕ) (s : Provider)
    (a b : AuthRequest)
    → request_with id s ≡ some a
    → is_empty a.user_id ≡ false
    → MaySignIn ps email password s.directory a.user_id
    → request_with id' (consent id (str "approve") now (world s [])).1.store ≡ some b
    → b.application_id ≡ a.application_id
    → b.scopes ≡ a.scopes
    → (post_username ps id' email password later
        (world (consent id (str "approve") now (world s [])).1.store [])).0
      ≡ callback id'
consent_remembered ps id id' email password now later s a b found somebody may there client scopes =
    let runs = consent_runs id now s a found somebody in
    let t = replaced (done_at now a) (record s { consents = saved_consents a s }) in
    let (_, _, complete, _) = save_consent_lem a.user_id a.application_id a.scopes s.consents in
    rw runs (
      sign_in_runs ps email password id' later t a.user_id b may
        (subst (λ r. request_with id' r.1.store ≡ some b) runs there)
        (rw (client, scopes) complete))
