-- ===== src/Domain/Region.antt =====
-- src/domain/value_objects.rs: the regions. A text is walked as the list of its code points.
use Prim.Native.Char.{code}
use edgeproxy.Prelude.{
  ℕ, ◌+◌, ◌-◌, ◌≡◌, refl, Bool, true, false, ◌&&◌, ◌||◌, String, List, [], ◌∷◌, ◌++◌, map,
  if◌then◌else◌, leb, nat_beq, Key, arith,
}

pub data RegionCode : Type 0 where
  south_america north_america europe asia_pacific : RegionCode

abbrev pub ordinal : RegionCode → ℕ
ordinal south_america = 0
ordinal north_america = 1
ordinal europe = 2
ordinal asia_pacific = 3

abbrev pub region_beq : RegionCode → RegionCode → Bool
region_beq r s = nat_beq (ordinal r) (ordinal s)

pub eq_of-region_beq : (r s : RegionCode) → region_beq r s ≡ true → r ≡ s
eq_of-region_beq r s h = ground arith

pub region_beq_of-eq : (r s : RegionCode) → r ≡ s → region_beq r s ≡ true
region_beq_of-eq r s h = ground arith

instance abbrev pub region_key : Key RegionCode
region_key = record {
  same = region_beq;
  eq_of_same = eq_of-region_beq;
  same_of_eq = region_beq_of-eq;
}

-- The code points of a text.
abbrev pub points : String → List ℕ
points String.[] = []
points (String.◌∷◌ c cs) = code c ∷ points cs

unfoldable pub same_points : List ℕ → List ℕ → Bool
same_points [] [] = true
same_points (a ∷ as') (b ∷ bs) = nat_beq a b && same_points as' bs
same_points _ _ = false

unfoldable pub among : List ℕ → List String → Bool
unfolding same_points
among cs [] = false
among cs (t ∷ ts) = same_points cs (points t) || among cs ts

-- `to_lowercase`, up to what lies outside ASCII: a letter there has a lowercase that is no letter of
-- a region's code.
unfoldable pub lower : ℕ → ℕ
lower c = if leb b'A' c && leb c b'Z' then c + 32 else c

unfoldable pub to_lowercase : List ℕ → List ℕ
unfolding lower
to_lowercase = map lower

-- `to_uppercase`: outside ASCII, the letters whose uppercase is ASCII.
unfoldable pub upper : ℕ → List ℕ
upper c =
    if leb b'a' c && leb c b'z'
    then (c - 32) ∷ []
    else if nat_beq c 0x131
    then b'I' ∷ []
    else if nat_beq c 0x17f
    then b'S' ∷ []
    else if nat_beq c 0xdf
    then b'S' ∷ b'S' ∷ []
    else if nat_beq c 0xfb00
    then b'F' ∷ b'F' ∷ []
    else if nat_beq c 0xfb01
    then b'F' ∷ b'I' ∷ []
    else if nat_beq c 0xfb02
    then b'F' ∷ b'L' ∷ []
    else if nat_beq c 0xfb03
    then b'F' ∷ b'F' ∷ b'I' ∷ []
    else if nat_beq c 0xfb04
    then b'F' ∷ b'F' ∷ b'L' ∷ []
    else if nat_beq c 0xfb05 || nat_beq c 0xfb06
    then b'S' ∷ b'T' ∷ []
    else c ∷ []

unfoldable pub to_uppercase : List ℕ → List ℕ
unfolding upper
to_uppercase [] = []
to_uppercase (c ∷ cs) = upper c ++ to_uppercase cs

unfoldable pub from_str : String → RegionCode
unfolding to_lowercase among
from_str s =
    let l = to_lowercase (points s) in
    if among l ("sa" ∷ [])
    then south_america
    else if among l ("us" ∷ [])
    then north_america
    else if among l ("eu" ∷ [])
    then europe
    else if among l ("ap" ∷ [])
    then asia_pacific
    else north_america

unfoldable pub as_str : RegionCode → String
as_str south_america = "sa"
as_str north_america = "us"
as_str europe = "eu"
as_str asia_pacific = "ap"

unfoldable pub default_country : RegionCode → String
default_country south_america = "BR"
default_country north_america = "US"
default_country europe = "DE"
default_country asia_pacific = "JP"

abbrev pub southern : List String
southern = "BR" ∷ "AR" ∷ "CL" ∷ "PE" ∷ "CO" ∷ "UY" ∷ "PY" ∷ "BO" ∷ "EC" ∷ "VE" ∷ []

abbrev pub northern : List String
northern = "US" ∷ "CA" ∷ "MX" ∷ []

abbrev pub european : List String
european =
    "PT" ∷ "ES" ∷ "FR" ∷ "DE" ∷ "NL" ∷ "IT" ∷ "GB" ∷ "IE" ∷ "BE" ∷ "CH" ∷ "AT" ∷ "PL" ∷ "CZ" ∷ "SE"
    ∷ "NO" ∷ "DK" ∷ "FI" ∷ "RU" ∷ "UA" ∷ []

abbrev pub asian : List String
asian =
    "JP" ∷ "KR" ∷ "TW" ∷ "HK" ∷ "SG" ∷ "MY" ∷ "TH" ∷ "VN" ∷ "ID" ∷ "PH" ∷ "AU" ∷ "NZ" ∷ "CN" ∷ "IN"
    ∷ []

unfoldable pub from_country : String → RegionCode
unfolding to_uppercase among
from_country country =
    let u = to_uppercase (points country) in
    if among u southern
    then south_america
    else if among u northern
    then north_america
    else if among u european
    then europe
    else if among u asian
    then asia_pacific
    else north_america

-- Every region is read back from its code, and from its default country.
pub from_str-as_str :
    (r : RegionCode) → (from_str (as_str r) ≡ r) × (from_country (default_country r) ≡ r)
unfolding from_str as_str from_country default_country
from_str-as_str south_america = (refl, refl)
from_str-as_str north_america = (refl, refl)
from_str-as_str europe = (refl, refl)
from_str-as_str asia_pacific = (refl, refl)
