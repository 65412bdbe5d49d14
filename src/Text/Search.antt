-- ===== src/Text/Search.antt =====
-- `includes` and `includes_word` find exactly the occurrences of their needle.
use winny.Base.{
  ◌≡◌, ◌↔◌, inl, inr, refl, ap, Bool, true, false, not, ◌&&◌, [], ◌∷◌, ◌++◌, arith, Bool-cases,
}
use winny.Text.{
  JsString, starts_with, includes, is_word_char, starts_with_word, includes_word_after,
  includes_word,
}

-- `s` has the needle somewhere.
abbrev pub Occurs : JsString → JsString → Type 0
Occurs needle s = (before : JsString) × (after : JsString) × (s ≡ before ++ (needle ++ after))

starts_with-append : (needle after : JsString) → starts_with needle (needle ++ after) ≡ true
unfolding starts_with
starts_with-append [] after = refl
starts_with-append (c ∷ needle) after = ground (arith, starts_with-append needle after)

starts_with_sound :
    (needle s : JsString) → starts_with needle s ≡ true → (after : JsString) × (s ≡ needle ++ after)
unfolding starts_with
starts_with_sound [] s h = (s, refl)
starts_with_sound (c ∷ needle) [] h = cc
starts_with_sound (c ∷ needle) (d ∷ s) h =
    let (after, e) = starts_with_sound needle s (ground arith) in (after, ground arith)

includes_sound : (needle s : JsString) → includes needle s ≡ true → Occurs needle s
unfolding includes
includes_sound needle [] h = let (after, e) = starts_with_sound needle [] h in ([], after, e)
includes_sound needle (d ∷ s) h = elim (Bool-cases (starts_with needle (d ∷ s))) [
  | inl here ↦ let (after, e) = starts_with_sound needle (d ∷ s) here in ([], after, e)
  | inr not_here ↦
      let (before, after, e) = includes_sound needle s (ground arith) in
      (d ∷ before, after, ap (λ t. d ∷ t) e)
]

includes_complete :
    (needle before after : JsString) → includes needle (before ++ (needle ++ after)) ≡ true
unfolding includes
includes_complete [] [] [] = refl
includes_complete [] [] (d ∷ after) = refl
includes_complete (c ∷ needle) [] after = ground (arith, starts_with-append (c ∷ needle) after)
includes_complete needle (d ∷ before) after = ground (arith, includes_complete needle before after)

-- `includes` answers true exactly when the needle stands somewhere in the text.
pub includes_iff : (needle s : JsString) → (includes needle s ≡ true) ↔ Occurs needle s
includes_iff needle s =
    (includes_sound needle s, λ (before, after, e). rw e (includes_complete needle before after))

-- The text ends in a word character, or is empty and stands behind one.
abbrev pub ends_inside : Bool → JsString → Bool
ends_inside inside [] = inside
ends_inside inside (d ∷ s) = ends_inside (is_word_char d) s

abbrev pub begins_inside : JsString → Bool
begins_inside [] = false
begins_inside (d ∷ s) = is_word_char d

-- `s` has the needle somewhere, with no word character beside it on either side.
abbrev pub OccursAsWord : Bool → JsString → JsString → Type 0
OccursAsWord inside needle s =
    (before : JsString) × (after : JsString) × (s ≡ before ++ (needle ++ after))
    × (ends_inside inside before ≡ false)
    × (begins_inside after ≡ false)

starts_with_word-append :
    (needle after : JsString)
    → begins_inside after ≡ false
    → starts_with_word needle (needle ++ after) ≡ true
unfolding starts_with_word
starts_with_word-append [] [] h = refl
starts_with_word-append [] (d ∷ after) h = rw h
starts_with_word-append (c ∷ needle) after h =
    ground (arith, starts_with_word-append needle after h)

starts_with_word_sound :
    (needle s : JsString)
    → starts_with_word needle s ≡ true
    → (after : JsString) × (s ≡ needle ++ after) × (begins_inside after ≡ false)
unfolding starts_with_word
starts_with_word_sound [] [] h = ([], refl, refl)
starts_with_word_sound [] (d ∷ s) h = (d ∷ s, refl, ground arith)
starts_with_word_sound (c ∷ needle) [] h = cc
starts_with_word_sound (c ∷ needle) (d ∷ s) h =
    let (after, e, outside) = starts_with_word_sound needle s (ground arith) in
    (after, ground arith, outside)

includes_word_after_sound :
    (inside : Bool) (needle s : JsString)
    → includes_word_after inside needle s ≡ true
    → OccursAsWord inside needle s
unfolding includes_word_after
includes_word_after_sound inside needle [] h =
    let (after, e, outside) = starts_with_word_sound needle [] (ground arith) in
    ([], after, e, ground arith, outside)
includes_word_after_sound inside needle (d ∷ s) h =
    elim (Bool-cases (not inside && starts_with_word needle (d ∷ s))) [
      | inl here ↦
          let (after, e, outside) = starts_with_word_sound needle (d ∷ s) (ground arith) in
          ([], after, e, ground arith, outside)
      | inr not_here ↦
          let (before, after, e, left, right) =
            includes_word_after_sound (is_word_char d) needle s (ground arith) in
          (d ∷ before, after, ap (λ t. d ∷ t) e, left, right)
    ]

includes_word_after_complete :
    (inside : Bool) (needle before after : JsString)
    → ends_inside inside before ≡ false
    → begins_inside after ≡ false
    → includes_word_after inside needle (before ++ (needle ++ after)) ≡ true
unfolding includes_word_after
includes_word_after_complete inside [] [] [] p q = ground arith
includes_word_after_complete inside [] [] (d ∷ after) p q = ground arith
includes_word_after_complete inside (c ∷ needle) [] after p q =
    ground (arith, starts_with_word-append (c ∷ needle) after q)
includes_word_after_complete inside needle (d ∷ before) after p q =
    ground (arith, includes_word_after_complete (is_word_char d) needle before after p q)

-- The regular expression matches exactly where the needle stands as a word of its own.
pub includes_word_iff :
    (needle s : JsString) → (includes_word needle s ≡ true) ↔ OccursAsWord false needle s
unfolding includes_word
includes_word_iff needle s = (
  includes_word_after_sound false needle s,
  λ (before, after, e, p, q). rw e (includes_word_after_complete false needle before after p q),
)
