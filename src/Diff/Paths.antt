-- ===== src/Diff/Paths.antt =====
-- internal/analysis/diff/diff.go: where two decoded values differ. Two such values are deeply equal
-- when they marshal to one text.
use staging_platform.Base.{
  ℕ, zero, suc, ◌-◌, String, Bool, false, ◌||◌, Option, none, some, List, [], ◌∷◌, ◌++◌, leb, ◌==◌,
  length, str_eq, append_text, if◌then◌else◌,
}
use staging_platform.Base.Int.{pos}
use staging_platform.Base.Order.{text_le}
use staging_platform.Base.Sorting.{sort_by}
use staging_platform.Json.{Value, Items, Fields, array, object, end, field, nil, cons}
use staging_platform.Standard.{Standard}
use staging_platform.Contracts.Compare.{join_with}

abbrev path_or_root : String → String
path_or_root path = if str_eq path "" then "$" else path

abbrev join_diff_path : String → String → String
join_diff_path prefix key =
    if str_eq prefix "" then key else append_text prefix (append_text "." key)

abbrev find_field : String → Fields → Option Value
find_field key end = none
find_field key (field k v fs) =
    let rest = find_field key fs in if str_eq k key then some v else rest

abbrev has_field : String → Fields → Bool
has_field key end = false
has_field key (field k v fs) = str_eq k key || has_field key fs

abbrev item_count : Items → ℕ
item_count nil = 0
item_count (cons v vs) = suc (item_count vs)

-- The fields that only the other object has.
abbrev only_there : String → Fields → Fields → List String
only_there path here end = []
only_there path here (field k v fs) =
    let rest = only_there path here fs in
    if has_field k here then rest else join_diff_path path k ∷ rest

abbrev take : ℕ → List String → List String
take n [] = []
take zero (x ∷ xs) = []
take (suc n) (x ∷ xs) = x ∷ take n xs

module _ (g : Standard) where
  abbrev deep_equal : Value → Value → Bool
  deep_equal a b = str_eq (g.marshal a) (g.marshal b)

  abbrev unless_equal : Value → Value → List String → List String
  unless_equal a b paths = if deep_equal a b then [] else paths

  abbrev item_path : String → ℕ → String
  item_path path idx =
      append_text (path_or_root path) (append_text "[" (append_text (g.sprint_int (pos idx)) "]"))

  mutual
    pub collect_differing_paths : String → Value → Value → List String
    collect_differing_paths path (object a) (object b) =
        unless_equal (object a) (object b)
          (collect_differing_fields path a b ++ only_there path a b)
    collect_differing_paths path (array a) (array b) =
        let nested = collect_differing_items path 0 a b in
        unless_equal (array a) (array b)
          (if item_count a == item_count b then nested else path_or_root path ∷ [])
    collect_differing_paths path a b = unless_equal a b (path_or_root path ∷ [])

    collect_differing_fields : String → Fields → Fields → List String
    collect_differing_fields path end b = []
    collect_differing_fields path (field k v fs) b =
        (elim (find_field k b) [
          | none ↦ join_diff_path path k ∷ []
          | some w ↦ collect_differing_paths (join_diff_path path k) v w
        ])
        ++ collect_differing_fields path fs b

    collect_differing_items : String → ℕ → Items → Items → List String
    collect_differing_items path idx nil b = []
    collect_differing_items path idx (cons v vs) nil = []
    collect_differing_items path idx (cons v vs) (cons w ws) =
        collect_differing_paths (item_path path idx) v w
        ++ collect_differing_items path (suc idx) vs ws

  unfoldable pub differing_paths : Value → Value → List String
  unfolding collect_differing_paths
  differing_paths a b = sort_by text_le (collect_differing_paths "" a b)

  abbrev listed : List String → String
  listed paths =
      if leb (length paths) 8
      then append_text "matched interaction fields changed at " (join_with ", " paths)
      else append_text "matched interaction fields changed at " (
          append_text (join_with ", " (take 8 paths))
            (append_text " (+" (append_text (g.sprint_int (pos (length paths - 8))) " more)")))

  abbrev described : List String → String
  described [] = "matched interaction fields changed"
  described (p ∷ ps) = listed (p ∷ ps)

  unfoldable pub modified_details : Value → Value → String
  unfolding differing_paths
  modified_details a b = described (differing_paths a b)
