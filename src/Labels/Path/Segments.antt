-- ===== src/Labels/Path/Segments.antt =====
-- utils/labels.py: the leaf has none of the illegal characters, and the path three segments.
use Prim.Native.Char.{code}
use gb_automations.Base.{
  ℕ, String, ◌<>◌, Bool, true, false, Option, List, [], ◌∷◌, ◌&&◌, leb, ◌==◌, ◌≡◌, refl, ap, ◌∙◌,
  arith, inl, inr, Bool-cases, any_of, take_chars, chars, Chars, Chars-map, Chars-strip, IsDigit,
  single, or_text,
}
use gb_automations.Toggl.Durations.{split}
use gb_automations.Toggl.Durations.Split.{IsOther, Without, split-first, split-whole}
use gb_automations.Labels.Path.{
  all_digits, year_from_created_time, replace, replace_all, illegal_leaf_chars, sanitize_leaf,
  project_path_parts, project_label_path,
}

replace-cons : (P : ℕ → Type 0) (s : String) → P 45 → Chars P s → Chars P ("-" <> s)
replace-cons P s d h = rw (single _ s) (d, h)

replace-Chars : (P : ℕ → Type 0) (ch : ℕ) (s : String) → P 45 → Chars P s → Chars P (replace ch s)
unfolding replace
replace-Chars P ch String.[] d h = h
replace-Chars P ch (String.◌∷◌ c s) d h = elim (Bool-cases (code c == ch)) [
  | inl e ↦ rw e (replace-cons P (replace ch s) d (replace-Chars P ch s d h.1))
  | inr e ↦ rw e (h.0, replace-Chars P ch s d h.1)
]

replace-Without : (ch : ℕ) (s : String) → (45 == ch) ≡ false → Without ch (replace ch s)
unfolding replace
replace-Without ch String.[] d = tt
replace-Without ch (String.◌∷◌ c s) d = elim (Bool-cases (code c == ch)) [
  | inl e ↦ rw e (replace-cons (IsOther ch) (replace ch s) d (replace-Without ch s d))
  | inr e ↦ rw e (e, replace-Without ch s d)
]

replace_all-Chars :
    (P : ℕ → Type 0) (chs : List ℕ) (s : String) → P 45 → Chars P s → Chars P (replace_all chs s)
unfolding replace_all
replace_all-Chars P [] s d h = h
replace_all-Chars P (ch ∷ chs) s d h =
    replace_all-Chars P chs (replace ch s) d (replace-Chars P ch s d h)

same_number : (m n : ℕ) → (m == n) ≡ true → m ≡ n
same_number m n h = ground (arith, h)

replace_all-Without :
    (ch : ℕ) (chs : List ℕ) (s : String)
    → (45 == ch) ≡ false
    → any_of (λ x. x == ch) chs ≡ true
    → Without ch (replace_all chs s)
unfolding replace_all
replace_all-Without ch [] s d = λ h. ground (arith, h)
replace_all-Without ch (x ∷ chs) s d = elim (Bool-cases (x == ch)) [
  | inl e ↦ λ h.
      replace_all-Chars (IsOther ch) chs (replace x s) d
        (rw (same_number x ch e) (replace-Without ch s d))
  | inr e ↦ rw e (λ h. replace_all-Without ch chs (replace x s) d h)
]

-- The leaf that the label and the folder share has none of the characters that are illegal in a path.
pub sanitize_leaf-Without :
    (name : String) (ch : ℕ)
    → any_of (λ x. x == ch) illegal_leaf_chars ≡ true
    → Without ch (sanitize_leaf name)
unfolding sanitize_leaf
sanitize_leaf-Without name ch h = elim (Bool-cases (45 == ch)) [
  | inl e ↦ ground (arith, h, same_number 45 ch e)
  | inr e ↦
      Chars-strip (IsOther ch) (replace_all illegal_leaf_chars name)
        (replace_all-Without ch illegal_leaf_chars name e h)
]

all_digits-IsDigit : (s : String) → all_digits s ≡ true → Chars IsDigit s
unfolding all_digits
all_digits-IsDigit String.[] = λ h. tt
all_digits-IsDigit (String.◌∷◌ c s) = elim (Bool-cases (leb 48 (code c))) [
  | inr a ↦ rw a (λ h. ground (arith, h))
  | inl a ↦ rw a (elim (Bool-cases (leb (code c) 57)) [
    | inr b ↦ rw b (λ h. ground (arith, h))
    | inl b ↦ rw b (λ h. ((ground (arith, a), ground (arith, b)), all_digits-IsDigit s h))
  ])
]

slash_after_digits : (c : ℕ) → IsDigit c → IsOther 47 c
slash_after_digits c h = ground (arith, h.0)

and_right : (a b : Bool) → (a && b) ≡ true → b ≡ true
and_right true b h = h
and_right false b h = ground (arith, h)

year-Without : (created : Option String) → Without 47 (year_from_created_time created)
unfolding year_from_created_time
year-Without created =
    let t = or_text created "" in
    elim (Bool-cases (leb 4 (chars t) && all_digits (take_chars 4 t))) [
      | inl e ↦ rw e (
          Chars-map IsDigit (IsOther 47) (take_chars 4 t) slash_after_digits
            (all_digits-IsDigit (take_chars 4 t) (and_right (leb 4 (chars t)) _ e)))
      | inr e ↦ rw e (refl, (refl, (refl, (refl, (refl, (refl, (refl, tt)))))))
    ]

split-slash : (s t : String) → Without 47 s → split 47 (s <> "/" <> t) ≡ s ∷ split 47 t
split-slash s t h = ap (λ x. split 47 (s <> x)) (single _ t) ∙ split-first _ s t h

-- Whatever the name of the project and the text of its creation time, the path of the label has just
-- three segments: the fixed first one, the year and the leaf, the last two as the folder has them.
pub project_label_path-split :
    (name : String) (created : Option String)
    → split 47 (project_label_path name created)
      ≡ "Prosjekt" ∷ (project_path_parts name created).0 ∷ (project_path_parts name created).1 ∷ []
unfolding project_label_path project_path_parts
project_label_path-split name created =
    let year = year_from_created_time created in
    let leaf = sanitize_leaf name in
    rw
      (
        split-slash "Prosjekt" (year <> "/" <> leaf)
            (refl, (refl, (refl, (refl, (refl, (refl, (refl, (refl, tt)))))))),
        split-slash year leaf (year-Without created),
        split-whole 47 leaf (sanitize_leaf-Without name 47 refl),
      )
      refl
