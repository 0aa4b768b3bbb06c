-- ===== src/Contracts/Compare/Prompts.antt =====
-- internal/analysis/contracts/diff.go: the prompts of a request, by their place and their digest.
use staging_platform.Base.{
  ℕ, suc, String, Bool, true, false, not, ◌&&◌, List, [], ◌∷◌, ◌++◌, any, leb, str_eq, append_text,
  if◌then◌else◌, is_blank, trim_space,
}
use staging_platform.Base.Int.{pos}
use staging_platform.Base.Order.{text_lt, text_le}
use staging_platform.Base.Sorting.{sort_by}
use staging_platform.Json.{Value, Items, Fields, null, text, array, object, end, field, nil, cons}
use staging_platform.Recorder.{contains}
use staging_platform.Standard.{Standard}
use staging_platform.Contracts.Classify.{join_words}

pub record PromptDigest : Type 0 where
  pub path : String
  pub hash : String
  pub preview : String

abbrev digest_key : PromptDigest → String
digest_key d = append_text d.path (append_text "\n" d.hash)

-- The loop of `mergePromptDigests`.
unfoldable pub add_digests : List PromptDigest → List PromptDigest → List PromptDigest
add_digests merged [] = merged
add_digests merged (d ∷ ds) =
    add_digests
      (if any (λ m. str_eq (digest_key m) (digest_key d)) merged then merged else merged ++ d ∷ [])
      ds

abbrev digest_le : PromptDigest → PromptDigest → Bool
digest_le a b = if str_eq a.path b.path then text_le a.hash b.hash else text_lt a.path b.path

unfoldable pub merge_prompt_digests : List PromptDigest → List PromptDigest → List PromptDigest
unfolding add_digests
merge_prompt_digests existing candidates =
    sort_by digest_le (add_digests [] (existing ++ candidates))

unfoldable pub has_prompt_value : Value → Bool
has_prompt_value (text t) = not (is_blank t)
has_prompt_value (array nil) = false
has_prompt_value (object end) = false
has_prompt_value null = false
has_prompt_value v = true

-- What is found under one field of an object.
pub record Found : Type 0 where
  pub key : String
  pub digests : List PromptDigest

-- The fields in the order of their keys.
abbrev in_order : List Found → List PromptDigest
in_order found = all_digests (sort_by (λ (a b : Found). text_le a.key b.key) found)
  where
    all_digests : List Found → List PromptDigest
    all_digests [] = []
    all_digests (f ∷ fs) = f.digests ++ all_digests fs

module _ (g : Standard) where
  unfoldable pub is_prompt_field : String → Bool
  is_prompt_field key =
      contains ("messages" ∷ "prompt" ∷ "instructions" ∷ "input" ∷ []) (g.to_lower (trim_space key))

  unfoldable pub truncate_prompt_preview : String → String
  truncate_prompt_preview value =
      let words = join_words g (g.fields value) in
      if leb (g.byte_length words) 120 then words else append_text (g.first_bytes words 120) "..."

  unfoldable pub prompt_preview : Value → String → String
  unfolding truncate_prompt_preview
  prompt_preview (text t) canonical = truncate_prompt_preview t
  prompt_preview v canonical = truncate_prompt_preview canonical

  unfoldable pub prompt_digest : String → Value → PromptDigest
  unfolding prompt_preview
  prompt_digest path v =
      let canonical = g.marshal v in
      record {
        path = path;
        hash = append_text "sha256:" (g.first_bytes (g.sha256_hex canonical) 16);
        preview = prompt_preview v canonical;
      }

  mutual
    unfolding is_prompt_field has_prompt_value prompt_digest

    pub collect_prompt_digests : String → Value → List PromptDigest
    collect_prompt_digests path (object o) = in_order (collect_prompt_fields path o)
    collect_prompt_digests path (array xs) = collect_prompt_items path 0 xs
    collect_prompt_digests path v = []

    collect_prompt_fields : String → Fields → List Found
    collect_prompt_fields path end = []
    collect_prompt_fields path (field k v fs) =
        let next_path = append_text path (append_text "." k) in
        let nested = collect_prompt_digests next_path v in
        record {
          key = k;
          digests =
              if is_prompt_field k && has_prompt_value v
              then prompt_digest next_path v ∷ []
              else nested;
        }
        ∷ collect_prompt_fields path fs

    collect_prompt_items : String → ℕ → Items → List PromptDigest
    collect_prompt_items path idx nil = []
    collect_prompt_items path idx (cons v vs) =
        collect_prompt_digests
          (append_text path (append_text "[" (append_text (g.sprint_int (pos idx)) "]"))) v
        ++ collect_prompt_items path (suc idx) vs

  unfoldable pub prompt_digests : Value → List PromptDigest
  unfolding collect_prompt_digests merge_prompt_digests
  prompt_digests body = merge_prompt_digests [] (collect_prompt_digests "request.body" body)
