-- ===== src/Cbom/Agility.antt =====
-- crates/qw-cbom/src/agility.rs: crypto-agility policies and their violations. Instants are in
-- nanoseconds.
pub mod Evaluation
pub mod Violations
use quanta_watch.Prelude.{
  ℕ, zero, suc, ◌-◌, ◌*◌, ◌/◌, Text, codes, text_eq, to_lowercase, eq_ignore_ascii_case,
  starts_with, ends_with, has_text, has_byte, has_item, split_on, Bool, true, false, not, ◌&&◌,
  ◌||◌, Option, none, some, List, [], ◌∷◌, ◌++◌, any, all, map, length, leb, ltb, if◌then◌else◌,
}
use quanta_watch.Gateway.CryptoPolicy.{PqcStatus, to_string}
use quanta_watch.Gateway.Rbac.{drop}
use quanta_watch.Gateway.Auth.{strip_prefix}
use quanta_watch.Scanner.{
  FindingRecord, FindingSeverity, info, low, medium, high, critical, category_name, severity_name,
  severity_rank, asset_type_name,
}

pub record PolicySelector : Type 0 where
  pub asset_types : List Text
  pub environment : Option Text
  pub kinds : List Text
  pub tags : List Text

pub record PolicyMatch : Type 0 where
  pub categories : List Text
  pub pqc_status : List Text
  pub algorithm_glob : Option Text
  pub min_severity : Option Text

pub record CryptoAgilityPolicy : Type 0 where
  pub id : Text
  pub name : Text
  pub description : Text
  pub selector : PolicySelector
  pub match_ : PolicyMatch
  pub severity : Text
  pub deadline : Option ℕ
  pub action : Text
  pub enforcement : Text

pub record AssetContext : Type 0 where
  pub address : Text
  pub kind : Text
  pub environment : Text
  pub tags : List Text

pub record Violation : Type 0 where
  pub finding_id : Text
  pub location : Text
  pub category : Text
  pub pqc_status : Text
  pub severity : Text
  pub algorithm : Option Text
  pub fingerprint : Text

pub data ℤ : Type 0 where
  pos negsuc : ℕ → ℤ

pub record PolicyResult : Type 0 where
  pub id : Text
  pub name : Text
  pub description : Text
  pub severity : Text
  pub action : Text
  pub enforcement : Text
  pub status : Text
  pub violation_count : ℕ
  pub violations : List Violation
  pub deadline : Option ℕ
  pub days_to_deadline : Option ℤ
  pub deadline_passed : Bool

-- `t.find(part)`: what follows its first occurrence.
unfoldable pub find_after : Text → Text → Option Text
unfolding starts_with drop
find_after part [] = if starts_with [] part then some [] else none
find_after part (c ∷ t) =
    let later = find_after part t in
    if starts_with (c ∷ t) part then some (drop (length part) (c ∷ t)) else later

-- The parts after the first star, in what is left of the text; the last is a suffix of it.
unfoldable pub glob_rest : List Text → Text → Bool
unfolding ends_with find_after
glob_rest [] t = true
glob_rest (last ∷ []) t = ends_with t last
glob_rest (part ∷ next ∷ parts) t = elim (find_after part t) [
  | none ↦ false
  | some rest ↦ glob_rest (next ∷ parts) rest
]

unfoldable pub glob_match : Text → Text → Bool
unfolding to_lowercase has_byte text_eq split_on strip_prefix glob_rest
glob_match pattern' text =
    let p = to_lowercase pattern' in
    let t = to_lowercase text in
    if not (has_byte p b'*')
    then text_eq t p
    else (let (first, parts) = split_on b'*' p in
        elim (strip_prefix first t) [ none ↦ false | some rest ↦ glob_rest parts rest ])

abbrev severities : List (Text × FindingSeverity)
severities =
    (codes "info", info)
    ∷ (codes "low", low)
    ∷ (codes "medium", medium)
    ∷ (codes "med", medium)
    ∷ (codes "high", high)
    ∷ (codes "critical", critical)
    ∷ (codes "crit", critical)
    ∷ []

unfoldable pub named_severity : List (Text × FindingSeverity) → Text → Option FindingSeverity
unfolding text_eq
named_severity [] s = none
named_severity ((name, severity) ∷ rest) s =
    let later = named_severity rest s in if text_eq name s then some severity else later

unfoldable pub parse_severity : Text → Option FindingSeverity
unfolding named_severity to_lowercase
parse_severity s = named_severity severities (to_lowercase s)

abbrev pub is_empty {ℓ} : {A : Type ℓ} → List A → Bool
is_empty [] = true
is_empty (x ∷ l) = false

unfoldable pub asset_for : Text → List AssetContext → Option AssetContext
unfolding has_text to_lowercase
asset_for location [] = none
asset_for location (a ∷ assets) =
    let rest = asset_for location assets in
    if not (is_empty a.address) && has_text (to_lowercase location) (to_lowercase a.address)
    then some a
    else rest

-- A list that is empty accepts everything.
unfoldable pub lists : List Text → Text → Bool
unfolding to_lowercase text_eq
lists wanted name = is_empty wanted || any (λ x. eq_ignore_ascii_case x name) wanted

abbrev glob_or_any : Option Text → Text → Bool
glob_or_any none text = true
glob_or_any (some g) text = glob_match g text

unfoldable pub asset_matches : PolicySelector → AssetContext → Bool
unfolding glob_match lists to_lowercase text_eq
asset_matches sel asset =
    glob_or_any sel.environment asset.environment
    && lists sel.kinds asset.kind
    && all (λ want. any (λ t. eq_ignore_ascii_case t want) asset.tags) sel.tags

abbrev is_set {ℓ} : {A : Type ℓ} → Option A → Bool
is_set none = false
is_set (some a) = true

abbrev needs_asset : PolicySelector → Bool
needs_asset sel = is_set sel.environment || not (is_empty sel.kinds) || not (is_empty sel.tags)

unfoldable pub selector_matches : PolicySelector → FindingRecord → List AssetContext → Bool
unfolding lists asset_type_name asset_for asset_matches
selector_matches sel f assets =
    lists sel.asset_types (asset_type_name f.asset_type)
    && (if needs_asset sel
        then elim (asset_for f.location assets) [
          | none ↦ false
          | some asset ↦ asset_matches sel asset
        ]
        else true)

abbrev pub or_else : Option Text → Text → Text
or_else none t = t
or_else (some s) t = s

-- A severity that has no such name sets no bound.
unfoldable pub severe_enough : Option Text → FindingSeverity → Bool
unfolding parse_severity severity_rank
severe_enough none severity = true
severe_enough (some s) severity = elim (parse_severity s) [
  | none ↦ true
  | some min ↦ leb (severity_rank min) (severity_rank severity)
]

unfoldable pub match_matches : PolicyMatch → FindingRecord → Bool
unfolding lists category_name to_string glob_match severe_enough
match_matches m f =
    lists m.categories (category_name f.category)
    && lists m.pqc_status (to_string f.pqc_status)
    && glob_or_any m.algorithm_glob (or_else f.algorithm [])
    && severe_enough m.min_severity f.severity
