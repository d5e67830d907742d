-- ===== src/Files/Tags.antt =====
-- The loops over a list of entity tags, against the list that the header was written from.
use oohttp.Base.{
  ℕ, zero, suc, ◌+◌, ◌≤◌, ◌<◌, ◌≡◌, refl, ◌∙◌, sym, Bool, true, false, ◌||◌, List, [], ◌∷◌, ◌++◌,
  some, if◌then◌else◌, Bytes, codes, is_empty, length, length-append, All, arith, Bool-cases, inl,
  inr,
}
use mathlib.Core.Path.{subst}
use mathlib.Core.List.{append_assoc, append-nil}
use oohttp.Base.Text.{trim, trim_left, trim_right, is_space}
use oohttp.Files.Etag.{is_etag_char, scan_chars, scan_etag, answer, again, round, any_tag, has_tag}

-- The text of a tag: whether it is weak, and its characters.
abbrev pub Tag : Type 0
Tag = Bool × Bytes

abbrev pub IsTag : Tag → Type 0
IsTag t = All (λ c. is_etag_char c ≡ true) t.1

abbrev pub quoted : Bytes → Bytes
quoted s = b'"' ∷ (s ++ (b'"' ∷ []))

abbrev pub tag_text : Tag → Bytes
tag_text (true, s) = codes "W/" ++ quoted s
tag_text (false, s) = quoted s

-- The value of a header field with the tags.
abbrev pub tags_text : List Tag → Bytes
tags_text [] = []
tags_text (t ∷ []) = tag_text t
tags_text (t ∷ u ∷ ts) = tag_text t ++ (codes ", " ++ tags_text (u ∷ ts))

-- Whether some tag of the list passes the test.
abbrev pub any : (Bytes → Bool) → List Tag → Bool
any matches [] = false
any matches (t ∷ ts) = matches (tag_text t) || any matches ts

scan_chars-append :
    (s rest : Bytes)
    → All (λ c. is_etag_char c ≡ true) s
    → scan_chars (s ++ (b'"' ∷ rest)) ≡ some (s ++ (b'"' ∷ []), rest)
unfolding scan_chars
scan_chars-append [] rest a = refl
scan_chars-append (c ∷ s) rest (e, a) = rw (e, scan_chars-append s rest a)

-- A string that ends in a quote stands as it is under `trim_right`.
trim_right-quoted : (s : Bytes) → trim_right (s ++ (b'"' ∷ [])) ≡ s ++ (b'"' ∷ [])
unfolding trim_right
trim_right-quoted [] = refl
trim_right-quoted (c ∷ s) = rw (trim_right-quoted s, keep s)
  where
    keep : (s : Bytes) → is_empty (s ++ (b'"' ∷ [])) ≡ false
    keep [] = refl
    keep (d ∷ t) = refl

-- A string whose last byte is a quote.
abbrev Ends : Bytes → Type 0
Ends x = (s : Bytes) × (x ≡ s ++ (b'"' ∷ []))

append-Ends : (y x : Bytes) → Ends x → Ends (y ++ x)
append-Ends y x (s, e) = (y ++ s, rw e (sym (append_assoc y s (b'"' ∷ []))))

tag_text-Ends : (t : Tag) → Ends (tag_text t)
tag_text-Ends (true, s) = (codes "W/" ++ (b'"' ∷ s), refl)
tag_text-Ends (false, s) = (b'"' ∷ s, refl)

tags_text-Ends : (t : Tag) (ts : List Tag) → Ends (tags_text (t ∷ ts))
tags_text-Ends t [] = tag_text-Ends t
tags_text-Ends t (u ∷ ts) =
    append-Ends (tag_text t) (codes ", " ++ tags_text (u ∷ ts))
      (append-Ends (codes ", ") (tags_text (u ∷ ts)) (tags_text-Ends u ts))

trim_right-Ends : (x : Bytes) → Ends x → trim_right x ≡ x
trim_right-Ends x (s, e) = rw e (trim_right-quoted s)

-- The first byte is no space, so that trimming leaves the string.
abbrev Starts : Bytes → Type 0
Starts [] = ⊥
Starts (c ∷ s) = is_space c ≡ false

trim-id : (x : Bytes) → Starts x → Ends x → trim x ≡ x
unfolding trim
trim-id [] b e = absurd b
trim-id (c ∷ s) b e = rw b (trim_right-Ends (c ∷ s) e)

tag_text-Starts : (t : Tag) (rest : Bytes) → Starts (tag_text t ++ rest)
tag_text-Starts (true, s) rest = refl
tag_text-Starts (false, s) rest = refl

scan_etag-tag_text :
    (t : Tag) (rest : Bytes)
    → IsTag t
    → Ends (tag_text t ++ rest)
    → scan_etag (tag_text t ++ rest) ≡ some (tag_text t, rest)
unfolding scan_etag
scan_etag-tag_text (true, s) rest a e = rw (
  trim-id (tag_text (true, s) ++ rest) refl e,
  append_assoc s (b'"' ∷ []) rest,
  scan_chars-append s rest a,
)
scan_etag-tag_text (false, s) rest a e = rw (
  trim-id (tag_text (false, s) ++ rest) refl e,
  append_assoc s (b'"' ∷ []) rest,
  scan_chars-append s rest a,
)

length-tag_text : (t : Tag) → 2 ≤ length (tag_text t)
length-tag_text (true, s) = omega (arith, length-append s (b'"' ∷ []))
length-tag_text (false, s) = omega (arith, length-append s (b'"' ∷ []))

length-more :
    (t u : Tag) (ts : List Tag) → 4 + length (tags_text (u ∷ ts)) ≤ length (tags_text (t ∷ u ∷ ts))
length-more t u ts =
    omega (arith, length-tag_text t, length-append (tag_text t) (codes ", " ++ tags_text (u ∷ ts)))

module _ (matches : Bytes → Bool) where
  round-tag_text :
      (t : Tag) (rest : Bytes)
      → IsTag t
      → Ends (tag_text t ++ rest)
      → round matches (tag_text t ++ rest)
        ≡ (if matches (tag_text t) then answer true else again rest)
  unfolding round
  round-tag_text (true, s) rest a e = rw (scan_etag-tag_text (true, s) rest a e)
  round-tag_text (false, s) rest a e = rw (scan_etag-tag_text (false, s) rest a e)

  -- The rounds at the end, at a comma, and at a tag.
  any_tag-nil : (f : ℕ) → any_tag (suc f) matches [] ≡ false
  unfolding any_tag round trim trim_left trim_right
  any_tag-nil f = refl

  any_tag-comma :
      (f : ℕ) (x : Bytes) → Ends x → any_tag (suc f) matches (b',' ∷ x) ≡ any_tag f matches x
  unfolding any_tag round
  any_tag-comma f x e = rw (any_tag, trim-id (b',' ∷ x) refl (append-Ends (b',' ∷ []) x e))

  -- Trimming takes the space away.
  any_tag-space : (f : ℕ) (x : Bytes) → any_tag f matches (b' ' ∷ x) ≡ any_tag f matches x
  unfolding any_tag trim trim_left
  any_tag-space zero x = refl
  any_tag-space (suc f) x = refl

  any_tag-tag_text :
      (f : ℕ) (t : Tag) (rest : Bytes)
      → IsTag t
      → Ends (tag_text t ++ rest)
      → any_tag (suc f) matches (tag_text t ++ rest)
        ≡ (if matches (tag_text t) then true else any_tag f matches rest)
  unfolding any_tag
  any_tag-tag_text f t rest a e = elim (Bool-cases (matches (tag_text t))) [
    | inl y ↦ rw (
      any_tag,
      trim-id (tag_text t ++ rest) (tag_text-Starts t rest) e,
      round-tag_text t rest a e,
      y,
    )
    | inr n ↦ rw (
      any_tag,
      trim-id (tag_text t ++ rest) (tag_text-Starts t rest) e,
      round-tag_text t rest a e,
      n,
    )
  ]

  any_tag-tags_text :
      (ts : List Tag) (f : ℕ)
      → All IsTag ts
      → length (tags_text ts) < f
      → any_tag f matches (tags_text ts) ≡ any matches ts
  any_tag-tags_text ts zero a h = absurd (omega arith)
  any_tag-tags_text [] (suc f) a h = any_tag-nil f
  any_tag-tags_text (t ∷ []) (suc zero) a h = absurd (omega (arith, length-tag_text t))
  any_tag-tags_text (t ∷ []) (suc (suc f)) (a, _) h =
      let e = tag_text-Ends t in
      ground (
        arith,
        append-nil (tag_text t),
        any_tag-nil f,
        any_tag-tag_text (suc f) t [] a (subst Ends (sym (append-nil (tag_text t))) e),
      )
  any_tag-tags_text (t ∷ u ∷ ts) (suc zero) a h = absurd (omega (arith, length-more t u ts))
  any_tag-tags_text (t ∷ u ∷ ts) (suc (suc zero)) a h = absurd (omega (arith, length-more t u ts))
  any_tag-tags_text (t ∷ u ∷ ts) (suc (suc f)) (a, b) h =
      let e = tags_text-Ends u ts in
      let e' = append-Ends (codes ", ") (tags_text (u ∷ ts)) e in
      any_tag-tag_text (suc f) t (codes ", " ++ tags_text (u ∷ ts)) a
        (append-Ends (tag_text t) (codes ", " ++ tags_text (u ∷ ts)) e')
      ∙ ground (
        arith,
        any_tag-comma f (b' ' ∷ tags_text (u ∷ ts))
            (append-Ends (b' ' ∷ []) (tags_text (u ∷ ts)) e),
        any_tag-space f (tags_text (u ∷ ts)),
        any_tag-tags_text (u ∷ ts) f b (omega (arith, length-more t u ts)),
      )

-- On a header field that lists entity tags, separated by a comma and a space, the loops of
-- `checkIfMatch` and `checkIfNoneMatch` find a match exactly if a tag of the list matches.
pub has_tag-tags_text :
    (matches : Bytes → Bool) (ts : List Tag)
    → All IsTag ts
    → has_tag matches (tags_text ts) ≡ any matches ts
has_tag-tags_text matches ts a =
    any_tag-tags_text matches ts (length (tags_text ts) + 1) a (omega arith)
