-- ===== src/Actions/Endpoint/Legs.antt =====
-- The legs that api/actions/join-batch.ts reads out of a query.
use winny.Base.{
  ◌≡◌, ◌≢◌, ◌<◌, ◌≤◌, ◌↔◌, refl, ap, subst, sym, ◌∙◌, Bool-cases, true, false, inl, inr, Option,
  none, some, List, [], ◌∷◌, length, ltb, arith,
}
use winny.Actions.Endpoint.{returned, ◌>>=◌, JsNumber, not_finite, negative, whole, fraction, Leg}
use winny.Actions.Endpoint.Built.{bind-returned}
use winny.Actions.Endpoint.Launch.{
  LegJson, not_object, leg, LegsQuery, no_legs, not_json, not_array, array, is_positive, parse_leg,
  parse_each, parse_batch_legs,
}

abbrev pub IsPositive : JsNumber → Type 0
IsPositive not_finite = ⊥
IsPositive negative = ⊥
IsPositive (whole n) = 0 < n
IsPositive (fraction s) = Unit

-- A leg that names its mint and an amount above 0, as it is.
abbrev pub IsLeg : LegJson → Leg → Type 0
IsLeg not_object l = ⊥
IsLeg (leg mint amount) l =
    (mint ≢ []) × IsPositive amount × (l ≡ record { mint = mint; amount = amount })

abbrev pub AreLegs : List LegJson → List Leg → Type 0
AreLegs [] [] = Unit
AreLegs (json ∷ jsons) (l ∷ legs) = IsLeg json l × AreLegs jsons legs
AreLegs [] (l ∷ legs) = ⊥
AreLegs (json ∷ jsons) [] = ⊥

-- No legs, or from one to five of them.
abbrev pub ReadAs : LegsQuery → Option (List Leg) → Type 0
ReadAs no_legs none = Unit
ReadAs no_legs (some legs) = ⊥
ReadAs (array jsons) none = ⊥
ReadAs (array jsons) (some legs) = (0 < length jsons) × (length jsons ≤ 5) × AreLegs jsons legs
ReadAs not_json legs = ⊥
ReadAs not_array legs = ⊥

is_positive_iff : (n : JsNumber) → (is_positive n ≡ true) ↔ IsPositive n
unfolding is_positive
is_positive_iff not_finite = ((λ h. cc), λ h. absurd h)
is_positive_iff negative = ((λ h. cc), λ h. absurd h)
is_positive_iff (whole n) = ((λ h. ground (arith, h)), λ h. ground (arith, h))
is_positive_iff (fraction s) = ((λ h. tt), λ h. refl)

parse_leg_iff : (json : LegJson) (l : Leg) → (parse_leg json ≡ returned l) ↔ IsLeg json l
unfolding parse_leg
parse_leg_iff not_object l = ((λ h. cc), λ h. absurd h)
parse_leg_iff (leg [] amount) l = ((λ h. cc), λ (named, more, same). absurd (named refl))
parse_leg_iff (leg (c ∷ mint) amount) l = elim (Bool-cases (is_positive amount)) [
  | inl positive ↦ (
    λ h. ((λ e. cc), (is_positive_iff amount).0 positive, ground (arith, positive, h)),
    λ (named, more, same). ground (arith, positive, same),
  )
  | inr refused ↦ (
    λ h. ground (arith, refused, h),
    λ (named, more, same). absurd (ground (arith, refused, (is_positive_iff amount).1 more)),
  )
]

parse_each_iff :
    (jsons : List LegJson) (legs : List Leg)
    → (parse_each jsons ≡ returned legs) ↔ AreLegs jsons legs
unfolding parse_each
parse_each_iff [] [] = ((λ h. tt), λ h. refl)
parse_each_iff [] (l ∷ legs) = ((λ h. cc), λ h. absurd h)
parse_each_iff (json ∷ jsons) [] = (
  λ h.
      let (first, first_read, more) = bind-returned (parse_leg json) _ h in
      let (rest, rest_read, last) = bind-returned (parse_each jsons) _ more in cc,
  λ h. absurd h,
)
parse_each_iff (json ∷ jsons) (l ∷ legs) = (
  λ h.
      let (first, first_read, more) = bind-returned (parse_leg json) _ h in
      let (rest, rest_read, last) = bind-returned (parse_each jsons) _ more in
      ((parse_leg_iff json l).0 cc, (parse_each_iff jsons legs).0 cc),
  λ (first, rest).
      ap (λ a. a >>= λ first. parse_each jsons >>= λ rest. returned (first ∷ rest))
        ((parse_leg_iff json l).1 first)
      ∙ ap (λ a. a >>= λ rest. returned (l ∷ rest)) ((parse_each_iff jsons legs).1 rest),
)

pub parse_batch_legs_iff :
    (query : LegsQuery) (legs : Option (List Leg))
    → (parse_batch_legs query ≡ returned legs) ↔ ReadAs query legs
unfolding parse_batch_legs
parse_batch_legs_iff no_legs none = ((λ h. tt), λ h. refl)
parse_batch_legs_iff no_legs (some legs) = ((λ h. cc), λ h. absurd h)
parse_batch_legs_iff not_json legs = ((λ h. cc), λ h. absurd h)
parse_batch_legs_iff not_array legs = ((λ h. cc), λ h. absurd h)
parse_batch_legs_iff (array []) none = ((λ h. cc), λ h. absurd h)
parse_batch_legs_iff (array []) (some legs) =
    ((λ h. cc), λ (some_leg, few, more). absurd (omega (arith, some_leg)))
parse_batch_legs_iff (array (json ∷ jsons)) legs =
    elim (Bool-cases (ltb 5 (length (json ∷ jsons)))) [
      | inl many ↦ (
        λ h. ground (arith, many, h),
        elim legs
            as (λ legs.
              ReadAs (array (json ∷ jsons)) legs
              → parse_batch_legs (array (json ∷ jsons)) ≡ returned legs) [
                | none ↦ λ h. absurd h
                | some ls ↦ λ (one, few, more). absurd (ground (arith, many, few))
              ],
      )
      | inr few ↦
          subst (λ a. (a ≡ returned legs) ↔ ReadAs (array (json ∷ jsons)) legs)
            (sym (ground (arith, few))) (read legs few)
    ]
  where
    read :
        (legs : Option (List Leg))
        → ltb 5 (length (json ∷ jsons)) ≡ false
        → ((parse_each (json ∷ jsons) >>= λ legs. returned (some legs)) ≡ returned legs)
          ↔ ReadAs (array (json ∷ jsons)) legs
    read none few = (
      λ h. let (ls, ls_read, last) = bind-returned (parse_each (json ∷ jsons)) _ h in cc,
      λ h. absurd h,
    )
    read (some ls) few = (
      λ h.
          let (ls', ls_read, last) = bind-returned (parse_each (json ∷ jsons)) _ h in
          (omega arith, ground (arith, few), (parse_each_iff (json ∷ jsons) ls).0 cc),
      λ (one, not_many, more).
          ap (λ a. a >>= λ legs. returned (some legs)) ((parse_each_iff (json ∷ jsons) ls).1 more),
    )
