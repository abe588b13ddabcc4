-- ===== src/Capability/Sound.antt =====
-- What the capabilities accept and return (backend/internal/capability/text.go and classify.go).
use go_dashboard.Prelude.{
  ℤ, pos, negsuc, suc, ◌^◌, ◌≤◌, ◌*◌, ◌&&◌, ltb, arith, ℕ, String, ◌≡◌, refl, Bool, true, false,
  not, ◌||◌, Option, none, some, [], ◌∷◌, All, is_blank, Error, Result, ok, err,
}
use go_dashboard.Prelude.Results.{
  Provides, Provides-error, Provides-value, Provides-bind, Provides-ok, refuse_if-passed, ◌>>=◌,
  refuse_if,
}
use native.Mathlib.Nat.{zero-mul}
use go_dashboard.Json.{RawMessage}
use go_dashboard.Capability.{Output, Capability}
use go_dashboard.Capability.Text.{
  validate_text, content_of, summarize, validate_compose, compose, new_summarize_text,
  new_extract_action_items, compose_dashboard_result,
}
use go_dashboard.Capability.Classify.{
  Float64, scale, below_zero, above_one, Classification, is_allowed, classification_prompt,
  encode_classification, check_classification, classify, classify_text,
}
use go_dashboard.ModelRouter.{Generation}
use go_dashboard.Summary.{SummaryRequest, SummaryResult}

-- `m * 2 ^ e ≤ 1`
abbrev pub IsAtMostOne : ℕ → ℤ → Type 0
IsAtMostOne m (pos e) = m * 2 ^ e ≤ 1
IsAtMostOne m (negsuc e) = m ≤ 2 ^ suc e

-- From 0 to 1; a negative number is not, unless it is the zero with a sign.
abbrev pub IsUnit : Float64 → Type 0
IsUnit x = (x.negative ≡ true → x.mantissa ≡ 0) × IsAtMostOne x.mantissa x.exponent

-- A call with an input that is not valid gives the error of the validation.
abbrev pub IsGuarded : Capability → Type 0
IsGuarded c =
    (calls : ℕ) (profile : String) (input : RawMessage) (e : Error)
    → c.validate_input input ≡ err e
    → c.execute calls profile input ≡ err e

guarded :
    {A B : Type 0} (check : Result A) (next : A → Result B) (e : Error)
    → check ≡ err e
    → (check >>= next) ≡ err e
guarded (ok a) next e h = absurd cc
guarded (err x) next e h = cc

-- Each of the four capabilities refuses with the same error when it is called as when it validates its input:
-- what `ValidateInput` refuses is not executed.
pub capabilities-IsGuarded :
    (schemas : String → RawMessage × RawMessage) (decode_text : RawMessage → Option String)
    (generator : ℕ → String → SummaryRequest → Result SummaryResult)
    (decode_compose : RawMessage → Option (SummaryResult × SummaryResult))
    (format_number : Float64 → String) (decode : String → Option (Classification × Bool))
    (client : ℕ → String → String → Result Generation)
    → All IsGuarded (
        new_summarize_text schemas decode_text generator
        ∷ new_extract_action_items schemas decode_text generator
        ∷ compose_dashboard_result schemas decode_text decode_compose
        ∷ classify_text format_number decode_text decode client (schemas "classify_text")
        ∷ [])
unfolding new_summarize_text new_extract_action_items compose_dashboard_result classify_text
    summarize compose classify
capabilities-IsGuarded schemas decode_text generator decode_compose format_number decode client = (
  λ calls profile input e h. guarded (validate_text (decode_text input)) _ e h,
  (
    λ calls profile input e h. guarded (validate_text (decode_text input)) _ e h,
    (
      λ calls profile input e h.
          guarded (validate_compose schemas decode_text decode_compose (decode_compose input)) _ e
            h,
      (λ calls profile input e h. guarded (validate_text (decode_text input)) _ e h, tt),
    ),
  ),
)

zero_times : (m n : ℕ) → m ≡ 0 → m * n ≡ 0
zero_times m n h = rw h (zero-mul n)

zero-IsAtMostOne : (m : ℕ) (e : ℤ) → m ≡ 0 → IsAtMostOne m e
zero-IsAtMostOne m (pos e) h = let none : m * 2 ^ e ≡ 0 = zero_times m (2 ^ e) h in omega arith
zero-IsAtMostOne m (negsuc e) h = omega arith

below-IsAtMostOne : (m : ℕ) (e : ℤ) → ltb (scale e).1 (m * (scale e).0) ≡ false → IsAtMostOne m e
below-IsAtMostOne m (pos e) h = ground arith
below-IsAtMostOne m (negsuc e) h = ground arith

unit_lem : (x : Float64) → below_zero x ≡ false → above_one x ≡ false → IsUnit x
unfolding below_zero above_one
unit_lem x low high = here x.negative refl low high
  where
    here :
        (b : Bool)
        → x.negative ≡ b
        → (b && ltb 0 x.mantissa) ≡ false
        → (not b && ltb (scale x.exponent).1 (x.mantissa * (scale x.exponent).0)) ≡ false
        → IsUnit x
    here true e low high =
        let empty : x.mantissa ≡ 0 = ground arith in
        ((λ _. empty), zero-IsAtMostOne x.mantissa x.exponent empty)
    here false e low high = ((λ h. absurd cc), below-IsAtMostOne x.mantissa x.exponent high)

module _ (format_number : Float64 → String) (decode_text : RawMessage → Option String)
    (decode : String → Option (Classification × Bool))
    (client : ℕ → String → String → Result Generation) where
  -- What the model may have said.
  abbrev pub IsValid : Classification → Type 0
  IsValid c = (is_allowed c.category ≡ true) × IsUnit c.confidence × (is_blank c.reason ≡ false)

  abbrev pub IsClassified : ℕ → String → RawMessage → Output → Type 0
  IsClassified calls profile input output =
      (generation : Generation) × (client calls profile
          (classification_prompt (content_of (decode_text input)))
        ≡ ok generation)
      × (c : Classification) × (decode generation.content ≡ some (c, true))
      × IsValid c
      × (output.content
          ≡ encode_classification format_number (record c { model = generation.model }))

  check_lem :
      (decoded : Option (Classification × Bool))
      → Provides (λ c. (decoded ≡ some (c, true)) × IsValid c) (check_classification decoded)
  unfolding check_classification
  check_lem none = Provides-error _ _
  check_lem (some (c, ends)) =
      Provides-bind _
        (refuse_if
          (not (is_allowed c.category)
            || below_zero c.confidence
            || above_one c.confidence
            || is_blank c.reason)
          _)
        _
        λ _ valid. Provides-bind _ (refuse_if (not ends) _) _ λ _ whole.
          let v = refuse_if-passed _ _ valid in
          let w = refuse_if-passed _ _ whole in
          let (allowed, unit, said) =
            all_valid (is_allowed c.category) (below_zero c.confidence) (above_one c.confidence)
              (is_blank c.reason) v in
          Provides-value _ _ (here ends w, (allowed, unit_lem c.confidence unit.0 unit.1, said))
    where
      here :
          (b : Bool)
          → not b ≡ false
          → ◌≡◌ {A = Option (Classification × Bool)} (some (c, b)) (some (c, true))
      here true h = refl
      here false h = absurd cc

      all_valid :
          (p q r s : Bool)
          → (not p || q || r || s) ≡ false
          → (p ≡ true) × ((q ≡ false) × (r ≡ false)) × (s ≡ false)
      all_valid true false false false h = (refl, (refl, refl), refl)
      all_valid true false false true h = absurd cc
      all_valid true false true s h = absurd cc
      all_valid true true r s h = absurd cc
      all_valid false q r s h = absurd cc

  classify_lem :
      (calls : ℕ) (profile : String) (input : RawMessage)
      → Provides
          (IsClassified calls profile input)
          (classify format_number decode_text decode client calls profile input)
  unfolding classify
  classify_lem calls profile input = Provides-bind _ (validate_text (decode_text input)) _ λ _ _.
      Provides-bind _
        (client calls profile (classification_prompt (content_of (decode_text input)))) _
        λ generation given.
          Provides-bind _ (check_classification (decode generation.content)) _ λ c checked.
            let (said, valid) = Provides-ok _ _ c (check_lem (decode generation.content)) checked in
            Provides-value (IsClassified calls profile input) _
              (generation, given, c, said, valid, refl)

-- What a classification returns is what the model said, with the name of the model: the answer is one
-- classification and nothing else, in one of the six categories, with a confidence from 0 to 1 and a reason.
pub classify-IsClassified :
    (format_number : Float64 → String) (decode_text : RawMessage → Option String)
    (decode : String → Option (Classification × Bool))
    (client : ℕ → String → String → Result Generation) (calls : ℕ) (profile : String)
    (input : RawMessage) (output : Output)
    → classify format_number decode_text decode client calls profile input ≡ ok output
    → IsClassified format_number decode_text decode client calls profile input output
classify-IsClassified format_number decode_text decode client calls profile input output h =
    Provides-ok _ _ output
      (classify_lem format_number decode_text decode client calls profile input) h
