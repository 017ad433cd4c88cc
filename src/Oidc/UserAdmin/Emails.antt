-- ===== src/Oidc/UserAdmin/Emails.antt =====
-- Which addresses validEmail accepts.
use griya_maya.Base.{
  ℕ, suc, ◌+◌, ◌≡◌, refl, sym, ap, ◌∙◌, ◌↔◌, Bool, true, false, [], ◌∷◌, ◌++◌, any, length, ltb,
  ◌==◌, is_empty, Option, none, some, arith, inl, inr, Bool-cases,
}
use griya_maya.Text.{Str}
use griya_maya.Oidc.UserAdmin.{index_byte, is_blank, inside, valid_email}

abbrev pub holds : ℕ → Str → Bool
holds c s = any (λ d. d == c) s

found_here : (c d : ℕ) (s : Str) → (d == c) ≡ true → index_byte c (d ∷ s) ≡ some 0
unfolding index_byte
found_here c d s e = rw e refl

module _ (c d : ℕ) (s : Str) (other : (d == c) ≡ false) where
  later_none : index_byte c s ≡ none → index_byte c (d ∷ s) ≡ none
  unfolding index_byte
  later_none e = rw (other, e) refl

  later_some : (m : ℕ) → index_byte c s ≡ some m → index_byte c (d ∷ s) ≡ some (m + 1)
  unfolding index_byte
  later_some m e = rw (other, e) refl

-- the text before the position has no such character, and the character stands there
abbrev Found : ℕ → Str → ℕ → Type 0
Found c s n =
    (before : Str) × (after : Str) × (s ≡ before ++ c ∷ after)
    × (length before ≡ n)
    × (holds c before ≡ false)

Found-later :
    (c d : ℕ) (s : Str) (n : ℕ)
    → (d == c) ≡ false
    → ((m : ℕ) → index_byte c s ≡ some m → Found c s m)
    → (o : Option ℕ) → index_byte c s ≡ o
    → index_byte c (d ∷ s) ≡ some n
    → Found c (d ∷ s) n
Found-later c d s n other deeper none e h = let nowhere = later_none c d s other e in absurd cc
Found-later c d s n other deeper (some m) e h =
    let (before, after, here, len, fresh) = deeper m e in
    let there = later_some c d s other m e in
    let size : some (m + 1) ≡ some n = sym there ∙ h in
    (d ∷ before, after, ap (λ t. d ∷ t) here, ground arith, ground arith)

index_byte-some : (c : ℕ) (s : Str) (n : ℕ) → index_byte c s ≡ some n → Found c s n
unfolding index_byte
index_byte-some c [] n h = absurd cc
index_byte-some c (d ∷ s) n h = elim (Bool-cases (d == c)) [
  | inl e ↦
      let at : some 0 ≡ some n = sym (found_here c d s e) ∙ h in
      let same : d ≡ c = ground arith in ([], s, rw same refl, ground arith, refl)
  | inr e ↦ Found-later c d s n e (λ m eq. index_byte-some c s m eq) (index_byte c s) refl h
]

index_byte_append :
    (c : ℕ) (before after : Str)
    → holds c before ≡ false
    → index_byte c (before ++ c ∷ after) ≡ some (length before)
unfolding index_byte
index_byte_append c [] after h = ground arith
index_byte_append c (d ∷ before) after h =
    let other : (d == c) ≡ false = ground arith in
    rw (other, index_byte_append c before after (ground arith)) (ap some (ground arith))

length-append : (s t : Str) → length (s ++ t) ≡ length s + length t
length-append [] t = ground arith
length-append (c ∷ s) t = ground (arith, length-append s t)

filled_iff : (s : Str) → (is_empty s ≡ false) ↔ (ltb 0 (length s) ≡ true)
filled_iff [] = (λ h. absurd cc, λ h. absurd (ground arith))
filled_iff (c ∷ s) = (λ h. ground arith, λ h. refl)

-- An address is accepted exactly if it is a text without the character @, one such character and a
-- rest, both of them not empty, and has no space and no tab.
pub valid_email_iff :
    (email : Str)
    → (valid_email email ≡ true) ↔ (
        (user : Str) × (host : Str) × (email ≡ user ++ b'@' ∷ host)
        × (is_empty user ≡ false)
        × (is_empty host ≡ false)
        × (holds b'@' user ≡ false)
        × (any is_blank email ≡ false))
unfolding valid_email
valid_email_iff email = (
  λ ok. split ok (index_byte b'@' email) refl,
  λ (user, host, e, user_filled, host_filled, fresh, fine).
      let at : index_byte b'@' email ≡ some (length user) =
        ap (index_byte b'@') e ∙ index_byte_append b'@' user host fresh in
      let size : length email ≡ length user + suc (length host) =
        ap length e ∙ length-append user (b'@' ∷ host) in
      let wide = (filled_iff user).0 user_filled in
      let long = (filled_iff host).0 host_filled in rw (at, fine) (ground arith),
)
  where
    split :
        valid_email email ≡ true
        → (o : Option ℕ) → index_byte b'@' email ≡ o
        → (user : Str) × (host : Str) × (email ≡ user ++ b'@' ∷ host)
          × (is_empty user ≡ false)
          × (is_empty host ≡ false)
          × (holds b'@' user ≡ false)
          × (any is_blank email ≡ false)
    split ok none eq = absurd (ground arith)
    split ok (some n) eq =
        let (user, host, e, len, fresh) = index_byte-some b'@' email n eq in
        let inner : inside email (some n) ≡ true = ground arith in
        let size : length email ≡ length user + suc (length host) =
          ap length e ∙ length-append user (b'@' ∷ host) in
        (
          user,
          host,
          e,
          (filled_iff user).1 (ground arith),
          (filled_iff host).1 (ground arith),
          fresh,
          ground arith,
        )
