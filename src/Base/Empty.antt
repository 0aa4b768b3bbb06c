-- ===== src/Base/Empty.antt =====
-- Lists of problems that are empty.
use mathlib.Core.Path.{◌≡◌}
use mathlib.Core.List.{List, [], ◌∷◌, flatten, append-eq-nil_iff}
use staging_platform.Base.Lists.{All}

abbrev pub IsNil {ℓ} : {A : Type ℓ} → List A → Type ℓ
IsNil xs = xs ≡ []

-- Lists that are put together to an empty one are empty.
pub flatten-All-IsNil {ℓ} : {A : Type ℓ} (xss : List (List A)) → flatten xss ≡ [] → All IsNil xss
unfolding flatten
flatten-All-IsNil [] h = tt
flatten-All-IsNil (xs ∷ xss) h =
    let (e, es) = append-eq-nil_iff.0 h in (e, flatten-All-IsNil xss es)
