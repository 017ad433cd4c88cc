-- ===== src/Oidc/Userinfo/Laws.antt =====
-- What an introspection requires, and what the scopes of a token disclose.
use griya_maya.Base.{
  ℕ, ◌≡◌, refl, sym, ◌∙◌, true, false, List, [], ◌∷◌, keep, ltb, if◌then◌else◌, Option, none, some,
  inl, inr, Bool-cases,
}
use griya_maya.Text.{Str, str, str_eq, mem_str}
use griya_maya.Text.Laws.{str_eq_iff}
use griya_maya.Effect.{Outcome, World, Result, ok, err, query}
use griya_maya.Effect.Laws.{Post, Post-query, Post-seq, Post-zoom, Post-answers, world}
use griya_maya.Repo.Reads.{first, or_not_found}
use griya_maya.Oidc.Store.{Token, Tokens}
use griya_maya.Oidc.Tokens.{get_token}
use griya_maya.Oidc.Users.{AdminUser, first_user, user_by_id}
use griya_maya.Oidc.Requests.{Provider, on_directory, on_tokens}
use griya_maya.Oidc.Userinfo.{
  UserInfo, Introspection, no_info, add_scope, add_scopes, info_of, set_userinfo, introspected,
  introspect_valid, set_introspection_from_token,
}

abbrev pub token_with : Str → Provider → Option Token
token_with id s = first (keep (λ t. str_eq t.id id) s.tokens.access)

abbrev pub user_with : Str → Provider → Option AdminUser
user_with id s = first_user (λ u. str_eq u.id id) s.directory

get_token-Post :
    (id : Str) (s : Provider) (os : List Outcome)
    → Post
        (λ t w. (token_with id s ≡ some t) × (w.store ≡ s))
        (λ _ _. Unit)
        (on_tokens (get_token id) (world s os))
unfolding get_token
get_token-Post id s os =
    Post-zoom (λ t w. (token_with id s ≡ some t) × (w.store ≡ s.tokens)) (λ _ _. Unit)
      (λ t w. (token_with id s ≡ some t) × (w.store ≡ s)) (λ _ _. Unit) (λ p. p.tokens)
      (λ t p. record p { tokens = t }) (get_token id) (world s os)
      (Post-seq (λ o w. (o ≡ token_with id s) × (w.store ≡ s.tokens))
        (λ t w. (token_with id s ≡ some t) × (w.store ≡ s.tokens)) (λ _ _. Unit)
        (query (λ s. first (keep (λ t. str_eq t.id id) s.access)) (world s.tokens os)) _
        (Post-query (λ o w. (o ≡ token_with id s) × (w.store ≡ s.tokens)) (λ _ _. Unit)
          (λ s. first (keep (λ t. str_eq t.id id) s.access)) (world s.tokens os)
          (λ os. (refl, refl)) (λ os. tt))
        λ o w (is_found, same). by_found o w is_found same)
      (λ t v (found, same). (found, rw same refl)) (λ e v h. tt)
  where
    by_found :
        (o : Option Token) (w : World Tokens)
        → o ≡ token_with id s
        → w.store ≡ s.tokens
        → Post
            (λ t w. (token_with id s ≡ some t) × (w.store ≡ s.tokens))
            (λ _ _. Unit)
            (or_not_found o, w)
    by_found none w found same = tt
    by_found (some t) w found same = (sym found, same)

set_userinfo-Post :
    (info : UserInfo) (user_id : Str) (scopes : List Str) (s : Provider) (w : World Provider)
    → w.store ≡ s
    → Post
        (λ i _. (u : AdminUser) × (user_with user_id s ≡ some u) × (i ≡ add_scopes u scopes info))
        (λ _ _. Unit)
        (set_userinfo info user_id scopes w)
unfolding set_userinfo user_by_id
set_userinfo-Post info user_id scopes s w same =
    Post-seq (λ o _. o ≡ user_with user_id s)
      (λ i _. (u : AdminUser) × (user_with user_id s ≡ some u) × (i ≡ add_scopes u scopes info))
      (λ _ _. Unit) (on_directory (user_by_id user_id) w) _
      (Post-zoom (λ o _. o ≡ user_with user_id s) (λ _ _. Unit) (λ o _. o ≡ user_with user_id s)
        (λ _ _. Unit) (λ p. p.directory) (λ d p. record p { directory = d }) (user_by_id user_id) w
        (Post-query (λ o _. o ≡ user_with user_id s) (λ _ _. Unit)
          (first_user λ u. str_eq u.id user_id) (world w.store.directory w.outcomes)
          (λ os. rw same refl) (λ os. tt))
        (λ o v h. h) (λ e v h. tt))
      λ o v is_found. by_found o v is_found
  where
    by_found :
        (o : Option AdminUser) (v : World Provider)
        → o ≡ user_with user_id s
        → Post
            (λ i _.
              (u : AdminUser) × (user_with user_id s ≡ some u) × (i ≡ add_scopes u scopes info))
            (λ _ _. Unit)
            (info_of info scopes o v)
    by_found none v h = tt
    by_found (some u) v h = (u, sym h, refl)

module _ (token_id subject client_id : Str) (now : ℕ) (s : Provider) where
  -- an answer without error to an introspection
  abbrev pub Introspects : Introspection → Type 0
  Introspects i =
      (t : Token) × (u : AdminUser) × (token_with token_id s ≡ some t)
      × (ltb t.expiration now ≡ false)
      × (mem_str client_id t.audience ≡ true)
      × (user_with subject s ≡ some u)
      × (i ≡ record {
        expiration = t.expiration;
        user = add_scopes u t.scopes no_info;
        scope = t.scopes;
        client_id = t.application_id;
      })

  -- Whatever its calls come to, an introspection that is answered without an error is of a token that
  -- is kept, has not expired and has the client in its audience, and of a user that exists; it gives
  -- the scopes, the end and the client of that token, and of the user what those scopes disclose.
  pub introspection_sound :
      (os : List Outcome) (i : Introspection)
      → (set_introspection_from_token token_id subject client_id now (world s os)).0 ≡ ok i
      → Introspects i
  unfolding set_introspection_from_token
  introspection_sound os i answer =
      (Post-answers (λ i _. Introspects i) (λ _ _. Unit)
          (introspect_valid subject client_id now (on_tokens (get_token token_id) (world s os)))
          (by_token (on_tokens (get_token token_id) (world s os)) (get_token-Post token_id s os))).0
        i answer
    where
      informed :
          (t : Token) (w : World Provider)
          → token_with token_id s ≡ some t
          → w.store ≡ s
          → ltb t.expiration now ≡ false
          → mem_str client_id t.audience ≡ true
          → Post (λ i _. Introspects i) (λ _ _. Unit) (introspected subject t w)
      informed t w found same live heard =
          Post-seq
            (λ i _.
              (u : AdminUser) × (user_with subject s ≡ some u)
              × (i ≡ add_scopes u t.scopes no_info))
            (λ i _. Introspects i) (λ _ _. Unit) (set_userinfo no_info subject t.scopes w) _
            (set_userinfo-Post no_info subject t.scopes s w same)
            λ i v (u, exists, is_info). (t, u, found, live, heard, exists, rw is_info refl)

      by_token :
          (r : Result Token × World Provider)
          → Post (λ t w. (token_with token_id s ≡ some t) × (w.store ≡ s)) (λ _ _. Unit) r
          → Post (λ i _. Introspects i) (λ _ _. Unit) (introspect_valid subject client_id now r)
      by_token (err e, w) h = tt
      by_token (ok t, w) (found, same) = elim (Bool-cases (ltb t.expiration now)) [
        | inl over ↦ rw over tt
        | inr live ↦ elim (Bool-cases (mem_str client_id t.audience)) [
          | inl heard ↦ rw (live, heard) (informed t w found same live heard)
          | inr deaf ↦ rw (live, deaf) tt
        ]
      ]

abbrev pub disclosed : AdminUser → List Str → UserInfo → UserInfo
disclosed u scopes info = record {
  subject = if mem_str (str "openid") scopes then u.id else info.subject;
  email = if mem_str (str "email") scopes then u.email else info.email;
  email_verified =
      if mem_str (str "email") scopes then some u.email_verified else info.email_verified;
  name = if mem_str (str "profile") scopes then u.name else info.name;
  preferred_username = if mem_str (str "profile") scopes then u.email else info.preferred_username;
}

disclosed-add_scope :
    (u : AdminUser) (scope : Str) (scopes : List Str) (info : UserInfo)
    → disclosed u scopes (add_scope u scope info) ≡ disclosed u (scope ∷ scopes) info
unfolding mem_str str_eq
disclosed-add_scope u scope scopes info = elim (Bool-cases (str_eq scope (str "openid"))) [
  | inl is_openid ↦
      rw ((str_eq_iff scope (str "openid")).0 is_openid)
        (elim (Bool-cases (mem_str (str "openid") scopes)) [
          | inl e ↦ rw e refl
          | inr e ↦ rw e refl
        ])
  | inr no_openid ↦ elim (Bool-cases (str_eq scope (str "email"))) [
    | inl is_email ↦
        rw ((str_eq_iff scope (str "email")).0 is_email)
          (elim (Bool-cases (mem_str (str "email") scopes)) [
            | inl e ↦ rw e refl
            | inr e ↦ rw e refl
          ])
    | inr no_email ↦ elim (Bool-cases (str_eq scope (str "profile"))) [
      | inl is_profile ↦
          rw ((str_eq_iff scope (str "profile")).0 is_profile)
            (elim (Bool-cases (mem_str (str "profile") scopes)) [
              | inl e ↦ rw e refl
              | inr e ↦ rw e refl
            ])
      | inr no_profile ↦ rw (no_openid, no_email, no_profile) refl
    ]
  ]
]

add_scopes-disclosed :
    (u : AdminUser) (scopes : List Str) (info : UserInfo)
    → add_scopes u scopes info ≡ disclosed u scopes info
unfolding add_scopes mem_str
add_scopes-disclosed u [] info = refl
add_scopes-disclosed u (scope ∷ scopes) info =
    add_scopes-disclosed u scopes (add_scope u scope info) ∙ disclosed-add_scope u scope scopes info

-- Whatever its calls come to, user information that is answered without an error is of a user that
-- exists, and has the identifier just for the scope openid, the address with its verification just
-- for email, and the name with the preferred user name just for profile, in whatever order and number
-- the scopes come; the rest of it is as it was.
pub set_userinfo_discloses :
    (info : UserInfo) (user_id : Str) (scopes : List Str) (s : Provider) (os : List Outcome)
    (i : UserInfo)
    → (set_userinfo info user_id scopes (world s os)).0 ≡ ok i
    → (u : AdminUser) × (user_with user_id s ≡ some u) × (i ≡ disclosed u scopes info)
set_userinfo_discloses info user_id scopes s os i answer =
    let (u, found, is_info) =
      (Post-answers
          (λ i _. (u : AdminUser) × (user_with user_id s ≡ some u) × (i ≡ add_scopes u scopes info))
          (λ _ _. Unit) (set_userinfo info user_id scopes (world s os))
          (set_userinfo-Post info user_id scopes s (world s os) refl)).0
        i answer in
    (u, found, is_info ∙ add_scopes-disclosed u scopes info)
