-- ===== src/Worker/Covers/Laws.antt =====
-- What the cover worker has done when it acknowledges a message.
use griya_maya.Base.{
  ℕ, ◌≡◌, refl, ap, ◌∙◌, Bool, false, not, ◌&&◌, ◌||◌, some, List, [], ◌∷◌, map, keep, any,
  if◌then◌else◌, is_empty, arith, inl, inr, Bool-cases,
}
use griya_maya.Base.Keep.{keep-keep}
use griya_maya.Text.{Str, str_eq}
use griya_maya.Text.Laws.{str_eq_refl}
use griya_maya.Effect.{World, Error, Result, ok, err}
use griya_maya.Effect.Laws.{Post, Post-exec, Post-seq, Post-result}
use griya_maya.Domain.Jobs.{CoverMirrorJob}
use griya_maya.Cloud.{Store, MediaRow}
use griya_maya.Repo.Writes.{set_cover, set_media_cover}
use griya_maya.Service.Reading.{contents_of}
use griya_maya.Worker.Bucket.Laws.{Never}
use griya_maya.Worker.Cleanup.{acked}
use griya_maya.Worker.Covers.{CoverMessage, with_object, put, cover_key, store_cover, mirror}

-- a row of the media that does not hold the cover
abbrev pub lacks : Str → Str → MediaRow → Bool
lacks media_id key row = str_eq row.id media_id && not (str_eq row.cover_url key)

-- the rows of other media and the objects of other keys are the same
pub record Apart (media_id key : Str) (s t : Store) : Type 0 where
  pub rows :
      keep (λ row. not (str_eq row.id media_id)) t.media
      ≡ keep (λ row. not (str_eq row.id media_id)) s.media
  pub objects :
      keep (λ o. not (str_eq o.0 key)) t.objects ≡ keep (λ o. not (str_eq o.0 key)) s.objects

Apart-refl : (media_id key : Str) (s : Store) → Apart media_id key s s
Apart-refl media_id key s = record { rows = refl; objects = refl }

keep-with_object :
    (key bytes : Str) (s : Store)
    → keep (λ o. not (str_eq o.0 key)) (with_object key bytes s).objects
      ≡ keep (λ o. not (str_eq o.0 key)) s.objects
keep-with_object key bytes s = rw (str_eq_refl key) (
    keep-keep (λ o. not (str_eq o.0 key)) (λ o. not (str_eq o.0 key)) (λ o. not (str_eq o.0 key))
      s.objects (λ o. ground arith))

contents_of-with_object :
    (key bytes : Str) (s : Store) → contents_of key (with_object key bytes s).objects ≡ ok bytes
contents_of-with_object key bytes s = rw (str_eq_refl key) refl

module _ (media_id key : Str) (now : ℕ) where
  lacks-set_cover :
      (rows : List MediaRow)
      → any (lacks media_id key) (map (set_cover media_id key now) rows) ≡ false
  lacks-set_cover [] = refl
  lacks-set_cover (row ∷ rows) = elim (Bool-cases (str_eq row.id media_id)) [
    | inl mine ↦ rw (mine, mine, str_eq_refl key) (lacks-set_cover rows)
    | inr other ↦ rw (other, other) (lacks-set_cover rows)
  ]

  keep-set_cover :
      (rows : List MediaRow)
      → keep (λ row. not (str_eq row.id media_id)) (map (set_cover media_id key now) rows)
        ≡ keep (λ row. not (str_eq row.id media_id)) rows
  keep-set_cover [] = refl
  keep-set_cover (row ∷ rows) = elim (Bool-cases (str_eq row.id media_id)) [
    | inl mine ↦ rw (mine, mine) (keep-set_cover rows)
    | inr other ↦ rw (other, other) (ap (λ rs. row ∷ rs) (keep-set_cover rows))
  ]

-- the object is there and every row of the media holds its key
abbrev Mirrored : CoverMirrorJob → Str → World Store → World Store → Type 0
Mirrored job bytes w v =
    (any (lacks job.media_id (cover_key job)) v.store.media ≡ false)
    × (contents_of (cover_key job) v.store.objects ≡ ok bytes)
    × Apart job.media_id (cover_key job) w.store v.store

abbrev Stored : CoverMirrorJob → Str → World Store → World Store → Type 0
Stored job bytes w v =
    (contents_of (cover_key job) v.store.objects ≡ ok bytes)
    × Apart job.media_id (cover_key job) w.store v.store

module _ (fetch encode : Str → Result Str) (now : ℕ) (job : CoverMirrorJob) (bytes : Str)
    (w : World Store) where
  abbrev Kept : Error → World Store → Type 0
  Kept e v = Apart job.media_id (cover_key job) w.store v.store

  put-Stored : Post (λ _ v. Stored job bytes w v) Kept (put (cover_key job) bytes w)
  unfolding put
  put-Stored =
      let there : Apart job.media_id (cover_key job) w.store
          (with_object (cover_key job) bytes w.store) =
        record { rows = refl; objects = keep-with_object (cover_key job) bytes w.store } in
      Post-exec (λ _ v. Stored job bytes w v) Kept (with_object (cover_key job) bytes) w
        (λ os. (contents_of-with_object (cover_key job) bytes w.store, there))
        (λ os. Apart-refl job.media_id (cover_key job) w.store) (λ os. there)

  set_media_cover-Mirrored :
      (v : World Store)
      → Stored job bytes w v
      → Post
          (λ _ u. Mirrored job bytes w u)
          Kept
          (set_media_cover job.media_id (cover_key job) now v)
  unfolding set_media_cover
  set_media_cover-Mirrored v (there, apart) =
      let set : Apart job.media_id (cover_key job) w.store (record v.store {
        media = map (set_cover job.media_id (cover_key job) now) v.store.media;
      }) =
        record {
          rows = keep-set_cover job.media_id (cover_key job) now v.store.media ∙ apart.rows;
          objects = apart.objects;
        } in
      Post-exec (λ _ u. Mirrored job bytes w u) Kept
        (λ s. record s { media = map (set_cover job.media_id (cover_key job) now) s.media }) v
        (λ os. (lacks-set_cover job.media_id (cover_key job) now v.store.media, there, set))
        (λ os. apart) (λ os. set)

  store_cover-Mirrored :
      Post (λ _ u. Mirrored job bytes w u) Kept (store_cover fetch encode now job bytes w)
  unfolding store_cover
  store_cover-Mirrored =
      Post-seq (λ _ v. Stored job bytes w v) (λ _ u. Mirrored job bytes w u) Kept
        (put (cover_key job) bytes w) (λ _. set_media_cover job.media_id (cover_key job) now)
        put-Stored (λ _ v s. set_media_cover-Mirrored v s)

  -- the same, as the worker answers it
  abbrev pub Answered : Bool → World Store → Type 0
  Answered done u =
      ((done && any (lacks job.media_id (cover_key job)) u.store.media) ≡ false)
      × ((if done then contents_of (cover_key job) u.store.objects else ok bytes) ≡ ok bytes)
      × Apart job.media_id (cover_key job) w.store u.store

  acked-Answered :
      (r : Result (Unit {0}) × World Store)
      → Post (λ _ u. Mirrored job bytes w u) Kept r
      → Post (λ done u. Answered done u) Never (acked r)
  acked-Answered (ok a, u) (covered, there, apart) = (covered, there, apart)
  acked-Answered (err e, u) apart = (refl, refl, apart)

-- Whatever the outcomes of its calls, the worker answers a message whose cover is fetched and encoded;
-- if it acknowledges it, every row of the media holds the key of the cover and the object of that
-- key is the encoded image; acknowledged or not, the rows of other media and the objects of other
-- keys are as they were.
pub mirror_sound :
    (fetch encode : Str → Result Str) (now : ℕ) (m : CoverMessage) (job : CoverMirrorJob)
    (raw bytes : Str) (w : World Store)
    → m.body ≡ some job
    → (is_empty job.media_id || is_empty job.source_url) ≡ false
    → fetch job.source_url ≡ ok raw
    → encode raw ≡ ok bytes
    → (done : Bool) × ((mirror fetch encode now m w).0 ≡ ok done)
      × Answered fetch encode now job bytes w done (mirror fetch encode now m w).1
unfolding mirror
mirror_sound fetch encode now m job raw bytes w read named fetched encoded =
    rw (read, named, fetched, encoded)
      (Post-result (λ done u. Answered fetch encode now job bytes w done u)
        (acked (store_cover fetch encode now job bytes w))
        (acked-Answered fetch encode now job bytes w (store_cover fetch encode now job bytes w)
          (store_cover-Mirrored fetch encode now job bytes w)))
