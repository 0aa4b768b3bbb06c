-- ===== src/Standard.antt =====
-- What the analysis packages use of Go's standard library and of the numbers of type float64. The
-- operations are parameters; `Laws` is the documented behaviour that a theorem relies on.
use staging_platform.Base.{ℕ, String, Bool, true, false, Option, List, ◌≡◌}
use staging_platform.Base.Int.{ℤ}
use staging_platform.Json.{Value}

pub record Standard : Type 1 where
  -- strings.ToLower, ToUpper, EqualFold
  pub to_lower : String → String
  pub to_upper : String → String
  pub equal_fold : String → String → Bool
  -- strings.Contains(text, term)
  pub includes : String → String → Bool
  -- strings.ReplaceAll(text, old, new)
  pub replace_all : String → String → String → String
  -- strings.Fields, strings.Split(text, separator), strings.FieldsFunc at the characters of a text
  pub fields : String → List String
  pub split : String → String → List String
  pub fields_at : String → String → List String
  -- len(text), text[:n]
  pub byte_length : String → ℕ
  pub first_bytes : String → ℕ → String
  -- fmt.Sprint of a decoded value, of an int; strconv.Quote
  pub sprint : Value → String
  pub sprint_int : ℤ → String
  pub quote : String → String
  -- The decoded value with the fields of its maps in the order in which the search for a name ranges
  -- over them. Go leaves it open: `stringFromNestedMap` is called with the name and the value.
  pub range_order : String → Value → Value
  -- json.Marshal of a decoded value, which writes the keys of a map in their order; the hexadecimal
  -- digits of sha256.Sum256
  pub marshal : Value → String
  pub sha256_hex : String → String
  -- float64, with strconv.ParseFloat and the value of a number's literal
  pub Float : Type 0
  pub is_negative : Float → Bool
  -- `<`, and `<=`: neither holds of a NaN
  pub is_less : Float → Float → Bool
  pub is_at_most : Float → Float → Bool
  pub parse_float : String → Option Float
  pub float_of : String → Float
  -- Does time.Parse(time.RFC3339, text) succeed?
  pub is_rfc3339 : String → Bool
  -- float64(a) / float64(b), x + y, x * y, math.Inf(-1)
  pub ratio : ℕ → ℕ → Float
  pub plus : Float → Float → Float
  pub times : Float → Float → Float
  pub negative_infinity : Float
  -- fmt.Sprintf("%.2f", x)
  pub two_decimals : Float → String

-- strings.EqualFold holds of equal texts; `<` of numbers is irreflexive and transitive.
pub record Laws (g : Standard) : Type 0 where
  pub equal_fold_refl : (s : String) → g.equal_fold s s ≡ true
  pub is_less_irrefl : (x : g.Float) → g.is_less x x ≡ false
  pub is_less_trans :
      (x y z : g.Float) → g.is_less x y ≡ true → g.is_less y z ≡ true → g.is_less x z ≡ true

-- net/url and the regular expressions of the matcher. The query of a URL is its names with their
-- values.
pub record Net (V : Type 0) : Type 1 where
  pub Url : Type 0
  pub parse_url : String → Option Url
  pub scheme : Url → String
  pub host : Url → String
  pub escaped_path : Url → String
  pub query : Url → List V
  pub encode_query : List V → String
  -- the text of the URL with this scheme, this host, this raw query and no fragment
  pub url_text : Url → String → String → String → String
  -- isoDateLikePattern, unixSecondsPattern, unixMillisPattern
  pub is_iso_date_like : String → Bool
  pub is_unix_seconds : String → Bool
  pub is_unix_millis : String → Bool
