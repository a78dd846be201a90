-- ===== src/Graph.antt =====
-- crates/qw-graph/src/lib.rs: the attack-path graph. Weights that the source has in `f64` are whole
-- numbers here, data weights in thousandths, channel and environment weights in hundredths, scores in
-- tenths. The texts for display (sublabel, title, recommendation) are left out.
pub mod Maps
pub mod Build
pub mod Agents
pub mod Assets
pub mod Targets
pub mod Growth
pub mod Joined
pub mod Closed
pub mod WellFormed
pub mod AirGap
pub mod Exposure
use quanta_watch.Prelude.{
  ℕ, zero, suc, Text, codes, text_eq, to_lowercase, eq_ignore_ascii_case, starts_with, has_text,
  split_on, Bool, true, false, ◌&&◌, ◌||◌, Option, none, some, List, [], ◌∷◌, ◌++◌, any, length,
  leb, ◌*◌, ◌/◌, if◌then◌else◌, ◌==◌,
}
use quanta_watch.Gateway.Rbac.{drop}
use quanta_watch.Gateway.CryptoPolicy.{
  PqcStatus, pqc_ready, hybrid, classical_secure, classical_weak, unknown,
}
use quanta_watch.Scanner.{FindingRecord}
use Maps.{set_insert}

pub record ProviderChannel : Type 0 where
  pub name : Text
  pub pqc_status : PqcStatus
  pub tls_version : Text
  pub endpoint : Text

pub record IdentityInput : Type 0 where
  pub label : Text
  pub role : Text

pub record AgentInput : Type 0 where
  pub name : Text
  pub offline : Bool
  pub allowed_tools : List Text
  pub allowed_models : List Text

pub record FlowRow : Type 0 where
  pub agent : Text
  pub provider : Text
  pub requests : ℕ
  pub sensitive : ℕ

pub record AssetRow : Type 0 where
  pub id : Text
  pub kind : Text
  pub address : Text
  pub environment : Text
  pub tags : List Text
  pub pqc_status : Text
  pub tls_version : Option Text

pub record ExposedService : Type 0 where
  pub port : ℕ
  pub service : Text
  pub pqc_status : Text
  pub exposed : Bool

pub record HostContainerRow : Type 0 where
  pub name : Text
  pub image : Text

pub record TargetRow : Type 0 where
  pub id : Text
  pub name : Text
  pub host : Text
  pub environment : Text
  pub tags : List Text
  pub exposed_services : List ExposedService
  pub containers : List HostContainerRow
  pub pqc_status : Text

pub record GraphInputs : Type 0 where
  pub providers : List ProviderChannel
  pub identities : List IdentityInput
  pub agents : List AgentInput
  pub flows : List FlowRow
  pub findings : List FindingRecord
  pub assets : List AssetRow
  pub targets : List TargetRow

pub record Node : Type 0 where
  pub id : Text
  pub kind : Text
  pub label : Text
  pub pqc_status : Text
  pub risk : ℕ
  pub blast_radius : ℕ
  pub observed : Bool

pub record Edge : Type 0 where
  pub source : Text
  pub target : Text
  pub kind : Text
  pub observed : Bool

pub record AttackPath : Type 0 where
  pub id : Text
  pub severity : Text
  pub score : ℕ
  pub hndl : Bool
  pub observed : Bool
  pub request_count : ℕ
  pub kind : Text
  pub data_class : Text
  pub agent : Text
  pub provider : Text
  pub tls_version : Option Text
  pub channel_pqc : PqcStatus
  pub node_ids : List Text

pub record Graph : Type 0 where
  pub nodes : List Node
  pub edges : List Edge
  pub paths : List AttackPath

-- `join`
unfoldable pub join : Text → List Text → Text
join sep [] = []
join sep (t ∷ []) = t
join sep (t ∷ u ∷ ts) = t ++ (sep ++ join sep (u ∷ ts))

-- The classes of data with their weights and the words that tell them, the first that fits.
abbrev data_classes : List (Text × ℕ × List Text)
data_classes =
    (
      codes "Broad / Privileged Access",
      1000,
      codes "*" ∷ codes "admin" ∷ codes "exec" ∷ codes "shell" ∷ [],
    )
    ∷ (
      codes "Financial Data",
      1000,
      codes "payment" ∷ codes "billing" ∷ codes "card" ∷ codes "finance" ∷ codes "invoice" ∷ [],
    )
    ∷ (
      codes "Customer PII",
      950,
      codes "crm"
          ∷ codes "customer"
          ∷ codes "email"
          ∷ codes "pii"
          ∷ codes "contact"
          ∷ codes "user_"
          ∷ codes "profile"
          ∷ [],
    )
    ∷ (
      codes "Internal Data",
      700,
      codes "db"
          ∷ codes "database"
          ∷ codes "sql"
          ∷ codes "file"
          ∷ codes "fs"
          ∷ codes "storage"
          ∷ codes "read"
          ∷ [],
    )
    ∷ (codes "Source Code", 650, codes "code" ∷ codes "repo" ∷ codes "git" ∷ codes "source" ∷ [])
    ∷ (codes "Public Data", 200, codes "web_search" ∷ codes "search" ∷ codes "public" ∷ [])
    ∷ []

unfoldable pub first_class : Text → List (Text × ℕ × List Text) → Text × ℕ
unfolding has_text
first_class joined [] = (codes "General Data", 500)
first_class joined ((label, weight, needles) ∷ classes) =
    let rest = first_class joined classes in
    if any (λ n. has_text joined n) needles then (label, weight) else rest

unfoldable pub data_class_for : List Text → Bool → Text × ℕ
unfolding join to_lowercase first_class
data_class_for tools offline =
    let (label, weight) = first_class (to_lowercase (join (codes ",") tools)) data_classes in
    (label, if offline then weight * 4 / 10 else weight)

unfoldable pub channel_weight : PqcStatus → ℕ
channel_weight classical_weak = 100
channel_weight classical_secure = 85
channel_weight unknown = 60
channel_weight hybrid = 15
channel_weight pqc_ready = 0

-- The providers of a model: those whose words it contains, or begins with.
abbrev model_words : List (Text × List Text × List Text)
model_words =
    (codes "anthropic", codes "claude" ∷ [], [])
    ∷ (codes "openai", codes "gpt" ∷ codes "openai" ∷ [], codes "o1" ∷ codes "o3" ∷ [])
    ∷ (codes "ollama", codes "ollama" ∷ [], [])
    ∷ (codes "deepseek", codes "deepseek" ∷ [], [])
    ∷ (codes "google", codes "gemini" ∷ codes "google" ∷ [], [])
    ∷ []

unfoldable pub add_providers : Text → List (Text × List Text × List Text) → List Text → List Text
unfolding has_text starts_with set_insert
add_providers ml [] set = set
add_providers ml ((provider, words, starts) ∷ rules) set =
    let with_it = set_insert provider set in
    let fits = any (λ w. has_text ml w) words || any (λ w. starts_with ml w) starts in
    add_providers ml rules (if fits then with_it else set)

unfoldable pub providers_into : List Text → List Text → List Text
unfolding to_lowercase add_providers
providers_into [] set = set
providers_into (m ∷ models) set =
    providers_into models (add_providers (to_lowercase m) model_words set)

unfoldable pub providers_for_models : List Text → List Text
unfolding providers_into
providers_for_models models = providers_into models []

unfoldable pub severity_for : ℕ → Text
severity_for score =
    if leb 700 score
    then codes "critical"
    else if leb 500 score
    then codes "high"
    else if leb 300 score
    then codes "medium"
    else codes "low"

-- What follows the last `://`.
unfoldable pub after_scheme : Text → Option Text
unfolding starts_with drop
after_scheme [] = none
after_scheme (c ∷ s) =
    let later = after_scheme s in
    elim later [
      | some rest ↦ some rest
      | none ↦ if starts_with (c ∷ s) (codes "://") then some (drop 3 (c ∷ s)) else none
    ]

abbrev or_whole : Option Text → Text → Text
or_whole none s = s
or_whole (some t) s = t

unfoldable pub host_of : Text → Text
unfolding after_scheme split_on
host_of addr = (split_on b':' (split_on b'/' (or_whole (after_scheme addr) addr)).0).0

unfoldable pub parse_status : Text → PqcStatus
unfolding text_eq
parse_status s =
    if text_eq s (codes "pqc_ready")
    then pqc_ready
    else if text_eq s (codes "hybrid")
    then hybrid
    else if text_eq s (codes "classical_secure")
    then classical_secure
    else if text_eq s (codes "classical_weak")
    then classical_weak
    else unknown

unfoldable pub is_air_gapped : List Text → Bool
unfolding to_lowercase text_eq
is_air_gapped tags =
    any
      (λ t.
        eq_ignore_ascii_case t (codes "air-gapped") || eq_ignore_ascii_case t (codes "airgapped"))
      tags
