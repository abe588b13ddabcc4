-- ===== src/Http.antt =====
-- backend/internal/httpapi: the handlers, as what they reply to a request. A reply is an error with a status, a
-- code and a message, or a status with what its body shows, or nothing.
pub mod Slack
pub mod Workflows
pub mod Summaries
pub mod Catalog
pub mod Accounted
use go_dashboard.Prelude.{
  ℕ, zero, suc, ◌+◌, ◌-◌, ◌*◌, ◌/◌, ◌≤◌, ◌<◌, String, ◌≡◌, refl, sym, ap, ◌∙◌, subst, ◌≢◌, ◌↔◌, ◌⊎◌,
  inl, inr, Bool, true, false, not, ◌&&◌, ◌||◌, Option, none, some, List, [], ◌∷◌, ◌++◌, map, arith,
  ◌==◌, eq_iff, eq_refl, ltb, leb, eqb, if◌then◌else◌, Bool-cases, Option-cases, length, get_elem?,
  select, find, any, count, map_where, length-append, All, All-append, take, length-take-le, chars,
  of_chars, chars-of_chars, ℤ, pos, negsuc, is_pos, is_neg, to_ℕ, eq_ℤ, lt_ℤ, is_blank, trim_space,
  cut_prefix, str_lt, Error, Flaw, Result, ok, err, ltb→lt, lt→ltb, leb→le,
}

pub data Reply (A : Type 0) : Type 0 where
  refuses : ℕ → String → String → Reply A
  replies : ℕ → A → Reply A
  silent : Reply A

abbrev pub code_of : {A : Type 0} → Reply A → ℕ
code_of (refuses status code message) = status
code_of (replies status a) = status
code_of silent = 200
