-- ===== src/Summary/Accepted.antt =====
-- Summaries that `Generate` returns (backend/internal/summary/service.go).
use go_dashboard.Prelude.{
  ◌∙◌, ℕ, ◌≤◌, String, ◌≡◌, refl, Bool, true, false, not, Option, none, some, arith, ◌==◌, ltb,
  length, chars, is_blank, trim_space, Result, ok,
}
use go_dashboard.Prelude.Results.{
  not-false, Provides, Provides-error, Provides-map, Provides-value, Provides-bind, Provides-ok,
  refuse_if-passed, refuse_if,
}
use go_dashboard.ModelRouter.{Generation}
use go_dashboard.Summary.{
  SummaryRequest, SummaryResult, is_valid_type, build_prompt, byte_length, checked_summary,
  read_summary, generate, max_content_length, max_generated_content_length,
}

-- The summary that the answer carries, which is the whole of it, trimmed, of the type that was asked for, by
-- the model that answered.
abbrev pub IsRead : (String → Option (String × Bool)) → String → Generation → SummaryResult → Type 0
IsRead decode summary_type generation result =
    (s : String) × (decode generation.content ≡ some (s, true))
    × (result.summary ≡ trim_space s)
    × (result.summary == "" ≡ false)
    × (result.summary_type ≡ summary_type)
    × (result.model ≡ generation.model)
    × (byte_length (chars generation.content) ≤ max_generated_content_length)

abbrev pub IsSummaryOf :
    (String → Option (String × Bool))
    → (String → Result Generation)
    → SummaryRequest
    → SummaryResult
    → Type 0
IsSummaryOf decode provider request result =
    (is_valid_type request.summary_type ≡ true)
    × (trim_space request.content == "" ≡ false)
    × (length (chars (trim_space request.content)) ≤ max_content_length)
    × (generation : Generation) × (provider
          (build_prompt (trim_space request.content) request.summary_type)
        ≡ ok generation)
    × IsRead decode request.summary_type generation result

within : (m n : ℕ) → ltb m n ≡ false → n ≤ m
within m n h = ground arith

whole_answer :
    (summary : String) (b : Bool)
    → not b ≡ false
    → ◌≡◌ {A = Option (String × Bool)} (some (summary, b)) (some (summary, true))
whole_answer summary true h = refl
whole_answer summary false h = absurd cc

module _ (decode : String → Option (String × Bool)) where
  read_summary-IsRead :
      (summary_type : String) (generation : Generation)
      → Provides
          (IsRead decode summary_type generation)
          (read_summary decode summary_type generation)
  unfolding read_summary checked_summary is_blank
  read_summary-IsRead summary_type generation =
      Provides-bind _
        (refuse_if (ltb max_generated_content_length (byte_length (chars generation.content))) _) _
        λ _ short. here (decode generation.content) refl (within _ _ (refuse_if-passed _ _ short))
    where
      here :
          (decoded : Option (String × Bool))
          → decode generation.content ≡ decoded
          → byte_length (chars generation.content) ≤ max_generated_content_length
          → Provides
              (IsRead decode summary_type generation)
              (checked_summary summary_type generation decoded)
      here none said short = Provides-error (IsRead decode summary_type generation) _
      here (some (summary, ends)) said short =
          Provides-bind _ (refuse_if (is_blank summary) _) _ λ _ named.
            Provides-bind _ (refuse_if (not ends) _) _ λ _ whole.
              Provides-value (IsRead decode summary_type generation) _ (
                summary,
                said ∙ whole_answer summary ends (refuse_if-passed _ _ whole),
                refl,
                refuse_if-passed _ _ named,
                refl,
                refl,
                short,
              )

  generate_lem :
      (provider : String → Result Generation) (request : SummaryRequest)
      → Provides (IsSummaryOf decode provider request) (generate decode provider request)
  unfolding generate
  generate_lem provider request =
      let content = trim_space request.content in
      Provides-bind _ (refuse_if (content == "") _) _ λ _ named.
        Provides-bind _ (refuse_if (ltb max_content_length (length (chars content))) _) _ λ _ short.
          Provides-bind _ (refuse_if (not (is_valid_type request.summary_type)) _) _ λ _ valid.
            Provides-bind _ (provider (build_prompt content request.summary_type)) _
              λ generation given.
                Provides-map _ (read_summary-IsRead request.summary_type generation) λ result read.
                  (
                    not-false _ (refuse_if-passed _ _ valid),
                    refuse_if-passed _ _ named,
                    within _ _ (refuse_if-passed _ _ short),
                    generation,
                    given,
                    read,
                  )

-- A summary that is returned comes from an answer of the model to the prompt of the trimmed content, which
-- is not empty and has at most 50,000 characters, for a type that is supported; the answer has at most 64 KiB
-- and is one summary and nothing else, and what is returned is that summary, trimmed and not empty, with the
-- type asked for and the model that answered.
pub generate-IsSummaryOf :
    (decode : String → Option (String × Bool)) (provider : String → Result Generation)
    (request : SummaryRequest) (result : SummaryResult)
    → generate decode provider request ≡ ok result
    → IsSummaryOf decode provider request result
generate-IsSummaryOf decode provider request result h =
    Provides-ok (IsSummaryOf decode provider request) _ result
      (generate_lem decode provider request) h
