-- ===== src/Runtime/Fallback/Similarity.antt =====
-- internal/runtime/fallback/matcher.go: the score of a candidate.
use staging_platform.Base.{
  ℕ, ◌+◌, String, Bool, not, ◌&&◌, ◌||◌, List, [], ◌∷◌, keep, if◌then◌else◌, length,
}
use staging_platform.Base.Problems.{is_empty}
use staging_platform.Recorder.{Interaction, Header, contains}
use staging_platform.Standard.{Standard, Net}
use staging_platform.Runtime.Fallback.Requests.{query_parts, header_parts, flattened_value_set}

-- A set of texts, as a list without repetition.
unfoldable pub set_of : List String → List String
set_of [] = []
set_of (x ∷ xs) = let rest = set_of xs in if contains rest x then rest else x ∷ rest

abbrev pub intersection_size : List String → List String → ℕ
intersection_size left right = length (keep (contains right) left)

abbrev pub union_size : List String → List String → ℕ
union_size left right = length left + length (keep (λ x. not (contains left x)) right)

module _ (g : Standard) (net : Net Header) where
  -- Two sets that are not empty have a union that is not.
  unfoldable pub set_similarity : List String → List String → g.Float
  unfolding set_of
  set_similarity left right =
      if is_empty left && is_empty right
      then g.float_of "1"
      else if is_empty left || is_empty right
      then g.float_of "0"
      else g.ratio (intersection_size (set_of left) (set_of right))
          (union_size (set_of left) (set_of right))

  abbrev plus_where : Bool → String → g.Float → g.Float
  plus_where test literal x = if test then g.plus x (g.float_of literal) else x

  unfoldable pub nearest_score : Interaction → Interaction → g.Float
  unfolding set_similarity
  nearest_score candidate request =
      let queries = query_parts g net candidate.request.url in
      let wanted_queries = query_parts g net request.request.url in
      let values = flattened_value_set g net candidate.request.body in
      let wanted_values = flattened_value_set g net request.request.body in
      let query_score = set_similarity queries wanted_queries in
      let body_score = set_similarity values wanted_values in
      let header_score =
        set_similarity (header_parts g net candidate.request.headers)
          (header_parts g net request.request.headers) in
      let weighted =
        g.plus
          (g.plus (g.times (g.float_of "0.50") body_score)
            (g.times (g.float_of "0.35") query_score))
          (g.times (g.float_of "0.15") header_score) in
      let with_body = plus_where (is_empty values && is_empty wanted_values) "0.25" weighted in
      let with_query = plus_where (is_empty queries && is_empty wanted_queries) "0.15" with_body in
      if g.is_less (g.float_of "1") with_query then g.float_of "1" else with_query
