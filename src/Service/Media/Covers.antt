-- ===== src/Service/Media/Covers.antt =====
-- An update that sends back the signed address of a mirrored cover.
use griya_maya.Base.{
  ℕ, ◌≡◌, refl, ap, ◌∙◌, Bool, true, false, Option, none, some, List, [], ◌∷◌, map, any,
  if◌then◌else◌, is_empty, arith, inl, inr, Bool-cases, ◌⊎◌,
}
use griya_maya.Text.{Str, str, str_eq, blank, contains, trim_space}
use griya_maya.Effect.{
  World, Error, ok, err, invalid_input, query, exec, pure, lift, guard, ◌>>=◌, ◌>>◌,
}
use griya_maya.Effect.Laws.{Post, Post-exec, Post-query, Post-seq, Post-weaken, Post-answers}
use griya_maya.Domain.Media.{Media, MediaType, MediaWriteRequest}
use griya_maya.Cloud.{Store, MediaRow}
use griya_maya.Repo.Reads.{get, media_with_id, or_not_found, valid_sub_type}
use griya_maya.Repo.Taxonomy.{TaxonomyKind, sync_all_taxonomies}
use griya_maya.Repo.Taxonomy.Frame.{Holds, Holding-sync_all_taxonomies}
use griya_maya.Repo.Writes as Repo
use griya_maya.Repo.Writes.{rewrite_row}
use griya_maya.Service.Ports.{Config}
use griya_maya.Service.Covers.{is_mirrored_cover, resolve_cover, enqueue_cover_mirror}
use griya_maya.Service.Media.Laws.{accepted}
use griya_maya.Service.Media.{
  requested, media_from_request, validate_sub_type, kept_cover, update_media,
}

abbrev Anything : Error → World Store → Type 0
Anything e w = Unit {0}

-- the rows after the UPDATE statement
abbrev pub rewritten : Media → ℕ → List MediaRow → List MediaRow
rewritten m now rows = map (rewrite_row m now) rows

module _ (c : Config) (now : ℕ) (ids : TaxonomyKind → ℕ → Str) (id : Str) (req : MediaWriteRequest)
    (current : Media) (w : World Store) where
  abbrev Untouched : World Store → Type 0
  Untouched v = v.store ≡ w.store

  abbrev new_media : Media
  new_media = record (requested id req) { cover_url = kept_cover current req }

  abbrev Updated : World Store → Type 0
  Updated v = Holds (rewritten new_media now w.store.media) w.store.cover_queue v.store

  get-found :
      media_with_id id w.store ≡ some current
      → Post (λ m v. (m ≡ current) × Untouched v) Anything (get id w)
  unfolding get
  get-found found =
      Post-seq (λ o v. (o ≡ some current) × Untouched v) (λ m v. (m ≡ current) × Untouched v)
        Anything (query (media_with_id id) w) (λ o. lift (or_not_found o))
        (Post-query (λ o v. (o ≡ some current) × Untouched v) Anything (media_with_id id) w
          (λ os. (found, refl)) (λ os. tt))
        (λ o v (e, same). rw e (refl, same))

  of_request :
      (media_from_request id req ≡ ok (requested id req))
      ⊎ (media_from_request id req ≡ err invalid_input)
  unfolding media_from_request
  of_request = elim (Bool-cases (accepted req)) [
    | inl yes_all ↦ inl (ground arith)
    | inr refused ↦ inr (ground arith)
  ]

  request-accepted :
      (v : World Store)
      → Untouched v
      → Post (λ m u. (m ≡ requested id req) × Untouched u) Anything (media_from_request id req, v)
  request-accepted v same = elim of_request [ inl e ↦ rw e (refl, same) | inr e ↦ rw e tt ]

  -- the check of the sub-type reads only
  valid_sub_type-reads :
      (t : MediaType) (sub_type : Str) (v : World Store)
      → is_empty sub_type ≡ false
      → Untouched v
      → Post (λ _ u. Untouched u) Anything (valid_sub_type t sub_type v)
  unfolding valid_sub_type
  valid_sub_type-reads t sub_type v given same =
      rw (given, valid_sub_type)
        (Post-query (λ _ u. Untouched u) Anything
          (λ s. any (λ st. if str_eq st.slug sub_type then str_eq st.type t else false) s.sub_types)
          v (λ os. same) (λ os. tt))

  sub_type-checked :
      (t : MediaType) (sub_type : Str) (v : World Store)
      → Untouched v
      → Post (λ _ u. Untouched u) Anything (validate_sub_type t sub_type v)
  unfolding validate_sub_type
  sub_type-checked t sub_type v same = elim (Bool-cases (is_empty sub_type)) [
    | inl none_given ↦ rw none_given same
    | inr given ↦ rw given (
        Post-seq (λ _ u. Untouched u) (λ _ u. Untouched u) Anything (valid_sub_type t sub_type v)
          (λ valid. guard valid invalid_input) (valid_sub_type-reads t sub_type v given same)
          (λ valid u k. guarded valid u k))
  ]
    where
      guarded :
          (b : Bool) (u : World Store)
          → Untouched u
          → Post (λ _ x. Untouched x) Anything (guard b invalid_input u)
      guarded true u k = k
      guarded false u k = tt

  abbrev Reached : Unit {0} → World Store → Type 0
  Reached _ v = Updated v

  written :
      (v : World Store)
      → Untouched v
      → Post Reached Anything (Repo.update_media new_media now ids v)
  unfolding Repo.update_media
  written v same =
      Post-seq Reached Reached Anything
        (exec (λ s. record s { media = rewritten new_media now s.media }) v)
        (λ _. sync_all_taxonomies new_media ids)
        (Post-exec Reached Anything (λ s. record s { media = rewritten new_media now s.media }) v
          (λ os. (ap (λ s. rewritten new_media now s.media) same, ap (λ s. s.cover_queue) same))
          (λ os. tt) (λ os. tt))
        (λ _ u h.
          Post-weaken (λ _ x. Updated x) (λ _ x. Updated x) (λ _ x. Updated x) Anything
            (sync_all_taxonomies new_media ids u)
            (Holding-sync_all_taxonomies (rewritten new_media now w.store.media) w.store.cover_queue
              new_media ids u h)
            (λ _ x y. y) (λ _ x y. tt))

  -- a mirrored cover is not sent to the mirror again
  not_mirrored_again :
      (cover : Str) (v : World Store)
      → is_mirrored_cover cover ≡ true
      → enqueue_cover_mirror c id cover v ≡ (ok tt, v)
  unfolding enqueue_cover_mirror
  not_mirrored_again cover v m = ground (arith, m)

  -- the last two steps: the row is read back
  read_back :
      (v : World Store)
      → Updated v
      → Post (λ _ u. Updated u) Anything ((get id >>= λ saved. pure (resolve_cover c saved)) v)
  unfolding get
  read_back v h =
      Post-seq (λ _ u. Updated u) (λ _ u. Updated u) Anything (get id v)
        (λ saved. pure (resolve_cover c saved))
        (Post-seq (λ _ u. Updated u) (λ _ u. Updated u) Anything (query (media_with_id id) v)
          (λ o. lift (or_not_found o))
          (Post-query (λ _ u. Updated u) Anything (media_with_id id) v (λ os. h) (λ os. tt))
          (λ o u k. found o u k))
        (λ m u k. k)
    where
      found :
          (o : Option Media) (u : World Store)
          → Updated u
          → Post (λ _ x. Updated x) Anything (or_not_found o, u)
      found none u k = tt
      found (some m) u k = k

  module _ (mirrored : is_mirrored_cover current.cover_url ≡ true)
      (sent_back : contains current.cover_url req.cover_url ≡ true) where
    cover_kept : kept_cover current req ≡ current.cover_url
    cover_kept = ground (arith, mirrored, sent_back)

    after_write :
        (v : World Store)
        → Untouched v
        → Post
            (λ _ u. Updated u)
            Anything
            ((do
              Repo.update_media new_media now ids
              enqueue_cover_mirror c id (kept_cover current req)
              saved ← get id
              pure (resolve_cover c saved))
              v)
    after_write v same =
        Post-seq Reached (λ _ u. Updated u) Anything (Repo.update_media new_media now ids v)
          (λ _.
            enqueue_cover_mirror c id (kept_cover current req)
            >> (get id >>= λ saved. pure (resolve_cover c saved)))
          (written v same)
          (λ _ u h.
            let again : is_mirrored_cover (kept_cover current req) ≡ true =
              ap is_mirrored_cover cover_kept ∙ mirrored in
            rw (not_mirrored_again (kept_cover current req) u again) (read_back u h))

    -- the steps between the read of the row and its update
    after_read :
        (v : World Store)
        → Untouched v
        → Post
            (λ _ u. Updated u)
            Anything
            ((do
              m ← lift (media_from_request id req)
              validate_sub_type m.type m.sub_type
              Repo.update_media (record m { cover_url = kept_cover current req }) now ids
              enqueue_cover_mirror c id (kept_cover current req)
              saved ← get id
              pure (resolve_cover c saved))
              v)
    after_read v same =
        Post-seq (λ m u. (m ≡ requested id req) × Untouched u) (λ _ u. Updated u) Anything
          (media_from_request id req, v)
          (λ m.
            validate_sub_type m.type m.sub_type
            >> (Repo.update_media (record m { cover_url = kept_cover current req }) now ids
                >> (enqueue_cover_mirror c id (kept_cover current req)
                    >> (get id >>= λ saved. pure (resolve_cover c saved)))))
          (request-accepted v same)
          (λ m u (e, kept). rw e (
            Post-seq (λ _ x. Untouched x) (λ _ x. Updated x) Anything
              (validate_sub_type (requested id req).type (requested id req).sub_type u)
              (λ _.
                Repo.update_media new_media now ids
                >> (enqueue_cover_mirror c id (kept_cover current req)
                    >> (get id >>= λ saved. pure (resolve_cover c saved))))
              (sub_type-checked (requested id req).type (requested id req).sub_type u kept)
              (λ _ x k. after_write x k)))

    update_media-Updated :
        media_with_id id w.store ≡ some current
        → Post (λ _ u. Updated u) Anything (update_media c now ids id req w)
    unfolding update_media
    update_media-Updated found = elim (Bool-cases (blank id)) [
      | inl b ↦ rw b tt
      | inr b ↦ rw b (
          Post-seq (λ m v. (m ≡ current) × Untouched v) (λ _ u. Updated u) Anything (get id w)
            (λ cur. lift (media_from_request id req) >>= λ m.
              validate_sub_type m.type m.sub_type
              >> (Repo.update_media (record m { cover_url = kept_cover cur req }) now ids
                  >> (enqueue_cover_mirror c id (kept_cover cur req)
                      >> (get id >>= λ saved. pure (resolve_cover c saved)))))
            (get-found found) (λ cur v (e, same). rw e (after_read v same)))
    ]

-- the row of the media as the request asks for it, with the cover that it had
abbrev pub asked_row : Str → MediaWriteRequest → Str → ℕ → MediaRow → MediaRow
asked_row id req cover now row =
    if str_eq row.id id
    then record {
      id = row.id;
      source_id = row.source_id;
      type = if is_empty req.type then str "manga" else req.type;
      sub_type = trim_space req.sub_type;
      url = if is_empty (trim_space req.url) then id else trim_space req.url;
      title = req.title;
      cover_url = cover;
      description = req.description;
      status = if is_empty req.status then str "unknown" else req.status;
      popularity = row.popularity;
      updated_at = now;
    }
    else row

asked_rows :
    (id : Str) (req : MediaWriteRequest) (cover : Str) (now : ℕ) (rows : List MediaRow)
    → rewritten (record (requested id req) { cover_url = cover }) now rows
      ≡ map (asked_row id req cover now) rows
asked_rows id req cover now [] = refl
asked_rows id req cover now (row ∷ rows) =
    ap (λ rs. asked_row id req cover now row ∷ rs) (asked_rows id req cover now rows)

-- When the stored cover is mirrored and a request sends back an address that holds its key, an update
-- that succeeds, whatever its calls come to, keeps the key as the cover in the row of the media, gives
-- the row the type, sub-type, address, title, description and status of the request, with manga, the
-- identifier and unknown for an empty type, address and status, changes no other row, and asks for no
-- new mirroring.
pub update_media-kept_cover :
    (c : Config) (now : ℕ) (ids : TaxonomyKind → ℕ → Str) (id : Str) (req : MediaWriteRequest)
    (current saved : Media) (w : World Store)
    → media_with_id id w.store ≡ some current
    → is_mirrored_cover current.cover_url ≡ true
    → contains current.cover_url req.cover_url ≡ true
    → (update_media c now ids id req w).0 ≡ ok saved
    → ((update_media c now ids id req w).1.store.media
        ≡ map (asked_row id req current.cover_url now) w.store.media)
      × ((update_media c now ids id req w).1.store.cover_queue ≡ w.store.cover_queue)
update_media-kept_cover c now ids id req current saved w found mirrored sent_back answer =
    let (rows, queue) =
      (Post-answers (λ _ u. Updated c now ids id req current w u) Anything
          (update_media c now ids id req w)
          (update_media-Updated c now ids id req current w mirrored sent_back found)).0
        saved answer in
    (
      rows
          ∙ ap (λ k. rewritten (record (requested id req) { cover_url = k }) now w.store.media)
              (cover_kept c now ids id req current w mirrored sent_back)
          ∙ asked_rows id req current.cover_url now w.store.media,
      queue,
    )
