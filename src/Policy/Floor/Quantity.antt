-- ===== src/Policy/Floor/Quantity.antt =====
-- Kubernetes quantities of floor.go. Floating-point numbers and strconv.ParseFloat are a parameter.
use Prim.Native.String
use mantlekeep.Prelude.{
  ℕ, suc, String, Bool, ◌&&◌, Option, none, some, [], ◌∷◌, Map, lookup, leb, if◌then◌else◌, ◌==◌,
}
use mantlekeep.Prelude.Text.{has_suffix, trim_space}

pub record FloatOps : Type 1 where
  pub Float : Type 0
  pub parse_float : String → Option Float
  pub times : Float → Float → Float
  pub of_nat : ℕ → Float
  pub milli : Float
  pub le : Float → Float → Bool

size : String → ℕ
size String.[] = 0
size (String.◌∷◌ c s) = suc (size s)

-- The text without its last n characters, and those characters.
drop_last : ℕ → String → String
unfolding size
drop_last n String.[] = ""
drop_last n (String.◌∷◌ c s) =
    let rest = drop_last n s in if leb (suc (size s)) n then "" else String.◌∷◌ c rest

take_last : ℕ → String → String
unfolding size
take_last n String.[] = ""
take_last n (String.◌∷◌ c s) =
    let rest = take_last n s in if leb (suc (size s)) n then String.◌∷◌ c s else rest

-- Each factor by its suffix.
abbrev floor_bin_factor : Map ℕ
floor_bin_factor =
    ("Ki", 1_024)
    ∷ ("Mi", 1_048_576)
    ∷ ("Gi", 1_073_741_824)
    ∷ ("Ti", 1_099_511_627_776)
    ∷ ("Pi", 1_125_899_906_842_624)
    ∷ []

abbrev floor_dec_factor : Map ℕ
floor_dec_factor =
    ("K", 1_000)
    ∷ ("M", 1_000_000)
    ∷ ("G", 1_000_000_000)
    ∷ ("T", 1_000_000_000_000)
    ∷ ("P", 1_000_000_000_000_000)
    ∷ []

module _ (fl : FloatOps) where
  open fl use {Float, parse_float, times, of_nat, milli, le}

  abbrev scaled : Option Float → Float → Option Float
  scaled none f = none
  scaled (some n) f = some (times n f)

  abbrev scaled_by : Option ℕ → Option Float → Option Float → Option Float
  scaled_by none n otherwise = otherwise
  scaled_by (some f) n otherwise = scaled n (of_nat f)

  parse_trimmed : String → Option Float
  unfolding has_suffix drop_last take_last lookup
  parse_trimmed s =
      if s == ""
      then none
      else if has_suffix s "i" && leb 3 (String.len s)
      then scaled_by (lookup (take_last 2 s) floor_bin_factor) (parse_float (drop_last 2 s)) none
      else if has_suffix s "m"
      then scaled (parse_float (drop_last 1 s)) milli
      else scaled_by (lookup (take_last 1 s) floor_dec_factor) (parse_float (drop_last 1 s))
          (parse_float s)

  unfoldable pub parse_quantity : String → Option Float
  unfolding trim_space parse_trimmed
  parse_quantity s = parse_trimmed (trim_space s)

  abbrev pub compare_quantities : Option Float → Option Float → Option Bool
  compare_quantities (some a) (some b) = some (le a b)
  compare_quantities _ _ = none

  -- `none` is ok = false.
  unfoldable pub quantity_less_or_equal : String → String → Option Bool
  unfolding parse_quantity
  quantity_less_or_equal a b = compare_quantities (parse_quantity a) (parse_quantity b)
