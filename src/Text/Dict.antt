-- ===== src/Text/Dict.antt =====
-- JavaScript's `Map` and plain objects with text keys, as association lists in the order of
-- insertion; a write of a key that is there replaces its value in place.
use winny.Base.{
  suc, ◌≤◌, ◌≡◌, ◌↔◌, refl, true, Option, none, some, List, [], ◌∷◌, length, if◌then◌else◌, arith,
  inl, inr, Bool-cases,
}
use winny.Text.{JsString, same_text}

same_text_sound : (s t : JsString) → same_text s t ≡ true → s ≡ t
unfolding same_text
same_text_sound [] [] h = refl
same_text_sound [] (d ∷ t) h = cc
same_text_sound (c ∷ s) [] h = cc
same_text_sound (c ∷ s) (d ∷ t) h = ground (arith, h, same_text_sound s t)

same_text_refl : (s : JsString) → same_text s s ≡ true
unfolding same_text
same_text_refl [] = refl
same_text_refl (c ∷ s) = ground (arith, same_text_refl s)

-- Two texts are the same exactly when the test says so.
pub same_text_iff : (s t : JsString) → (same_text s t ≡ true) ↔ (s ≡ t)
same_text_iff s t = (same_text_sound s t, λ e. rw e (same_text_refl t))

module _ {V : Type 0} where
  -- m.get(k)
  unfoldable pub get : JsString → List (JsString × V) → Option V
  get k [] = none
  get k ((j, v) ∷ m) = let rest = get k m in if same_text j k then some v else rest

  -- m.set(k, v)
  unfoldable pub set : JsString → V → List (JsString × V) → List (JsString × V)
  set k v [] = (k, v) ∷ []
  set k v ((j, w) ∷ m) = let rest = set k v m in if same_text j k then (j, v) ∷ m else (j, w) ∷ rest

  -- m.delete(k)
  unfoldable pub delete : JsString → List (JsString × V) → List (JsString × V)
  delete k [] = []
  delete k ((j, w) ∷ m) = let rest = delete k m in if same_text j k then m else (j, w) ∷ rest

  -- Each key stands once.
  abbrev pub DistinctKeys : List (JsString × V) → Type 0
  DistinctKeys [] = Unit
  DistinctKeys ((j, w) ∷ m) = (get j m ≡ none) × DistinctKeys m

  pub get-set :
      (k j : JsString) (v : V) (m : List (JsString × V))
      → get j (set k v m) ≡ (if same_text k j then some v else get j m)
  unfolding get set
  get-set k j v [] = refl
  get-set k j v ((i, w) ∷ m) =
      ground (arith, get-set k j v m, same_text_iff i k, same_text_iff i j, same_text_iff k j)

  pub set-DistinctKeys :
      (k : JsString) (v : V) (m : List (JsString × V)) → DistinctKeys m → DistinctKeys (set k v m)
  unfolding set
  set-DistinctKeys k v [] h = (unfold get in refl, tt)
  set-DistinctKeys k v ((i, w) ∷ m) (p, h) =
      ground
        (arith, get-set k i v m, set-DistinctKeys k v m h, same_text_iff i k, same_text_iff k i)

  pub get-delete :
      (k j : JsString) (m : List (JsString × V))
      → DistinctKeys m
      → get j (delete k m) ≡ (if same_text k j then none else get j m)
  unfolding get delete
  get-delete k j [] h = ground arith
  get-delete k j ((i, w) ∷ m) (p, h) = elim (Bool-cases (same_text i k)) [
    | inl here ↦
        rw here (ground (arith, here, p, same_text_iff i k, same_text_iff i j, same_text_iff k j))
    | inr later ↦
        ground (
          arith,
          later,
          get-delete k j m h,
          same_text_iff i k,
          same_text_iff i j,
          same_text_iff k j,
        )
  ]

  pub delete-DistinctKeys :
      (k : JsString) (m : List (JsString × V)) → DistinctKeys m → DistinctKeys (delete k m)
  unfolding delete
  delete-DistinctKeys k [] h = tt
  delete-DistinctKeys k ((i, w) ∷ m) (p, h) =
      ground (arith, h, p, get-delete k i m h, delete-DistinctKeys k m h)

  pub length-delete :
      (k : JsString) (m : List (JsString × V)) (v : V)
      → get k m ≡ some v
      → suc (length (delete k m)) ≡ length m
  unfolding get delete
  length-delete k [] v h = cc
  length-delete k ((i, w) ∷ m) v h = ground (arith, h, length-delete k m v)

  pub length-delete_le : (k : JsString) (m : List (JsString × V)) → length (delete k m) ≤ length m
  unfolding delete
  length-delete_le k [] = omega arith
  length-delete_le k ((i, w) ∷ m) = ground (arith, length-delete_le k m)
