-- ===== src/Graph/Exposure.antt =====
-- crates/qw-graph/src/lib.rs: how realistic an attack path is, its kill chain, and the ranked work list.
-- Shares are in hundredths. A row stands for the JSON object of a path.
pub mod Ranking
use quanta_watch.Prelude.{
  ℕ, ◌+◌, ◌*◌, ◌/◌, Text, codes, text_eq, Bool, true, false, ◌&&◌, ◌||◌, List, [], ◌∷◌, ◌++◌, map,
  ltb, sort_by, if◌then◌else◌, ◌==◌,
}
use quanta_watch.Gateway.CryptoPolicy.{to_string}
use quanta_watch.Graph.{AttackPath, channel_weight}

abbrev pub data_values : List (Text × ℕ)
data_values =
    (codes "Broad / Privileged Access", 100)
    ∷ (codes "Financial Data", 100)
    ∷ (codes "Customer PII", 95)
    ∷ (codes "Production", 90)
    ∷ (codes "production", 90)
    ∷ (codes "Internal Data", 70)
    ∷ (codes "Source Code", 65)
    ∷ (codes "Codebase", 60)
    ∷ (codes "General Data", 50)
    ∷ (codes "Staging", 45)
    ∷ (codes "staging", 45)
    ∷ (codes "Public Data", 20)
    ∷ []

unfoldable pub value_in : List (Text × ℕ) → Text → ℕ
unfolding text_eq
value_in [] label = 60
value_in ((name, value) ∷ rows) label =
    let rest = value_in rows label in if text_eq name label then value else rest

unfoldable pub data_value_for_label : Text → ℕ
unfolding value_in
data_value_for_label label = value_in data_values label

abbrev pub is_access : AttackPath → Bool
is_access p = text_eq p.kind (codes "access-risk")

unfoldable pub reach_of : AttackPath → ℕ
unfolding text_eq
reach_of p = if p.observed then 100 else if text_eq p.kind (codes "external-asset") then 85 else 55

-- The exploitability and the reachability of a path.
unfoldable pub exploitability_of : AttackPath → ℕ × ℕ
unfolding reach_of data_value_for_label channel_weight text_eq
exploitability_of p =
    let share = if is_access p then 75 else channel_weight p.channel_pqc in
    ((reach_of p * share * data_value_for_label p.data_class + 5000) / 10_000, reach_of p)

pub record KillChainStage : Type 0 where
  pub stage : ℕ
  pub key : Text
  pub label : Text
  pub detail : Text
  pub status : Text

abbrev stage_of : ℕ → (key label detail status : Text) → KillChainStage
stage_of n key label detail status = record {
  stage = n;
  key = key;
  label = label;
  detail = detail;
  status = status;
}

unfoldable pub access_chain : AttackPath → List KillChainStage
access_chain p =
    stage_of 1 (codes "acquire") (codes "Acquire credential")
      (codes "Compromise the over-privileged key driving " ++ (p.agent ++ codes "."))
      (codes "feasible")
    ∷ stage_of 2 (codes "pivot") (codes "Pivot through agent")
        (codes "Use the agent's authority to reach " ++ (p.data_class ++ codes "."))
        (codes "feasible")
    ∷ stage_of 3 (codes "impact") (codes "Impact")
        (codes "Misuse or exfiltrate " ++ (p.data_class ++ codes ".")) (codes "feasible")
    ∷ []

unfoldable pub harvest_chain : AttackPath → List KillChainStage
unfolding channel_weight to_string
harvest_chain p =
    let weak = channel_weight p.channel_pqc in
    let harvestable = ltb 10 weak in
    stage_of 1 (codes "harvest") (codes "Harvest")
      (codes "Capture ciphertext from the "
        ++ (p.provider ++ (codes " channel (" ++ (to_string p.channel_pqc ++ codes ")."))))
      (if p.observed
        then codes "active"
        else if harvestable
        then codes "feasible"
        else codes "blocked")
    ∷ stage_of 2 (codes "store") (codes "Store")
        (codes "Archive the captured traffic for future decryption.")
        (if p.hndl then codes "active" else if harvestable then codes "feasible" else codes "na")
    ∷ stage_of 3 (codes "await_crqc") (codes "Await CRQC")
        (codes "Wait for a cryptographically-relevant quantum computer.")
        (if harvestable then codes "pending" else codes "blocked")
    ∷ stage_of 4 (codes "decrypt") (codes "Decrypt")
        (codes "Recover the session key and plaintext once a CRQC exists.")
        (if ltb 50 weak
          then codes "feasible"
          else if harvestable
          then codes "pending"
          else codes "blocked")
    ∷ stage_of 5 (codes "impact") (codes "Impact")
        (codes "Exposure of " ++ (p.data_class ++ codes "."))
        (if harvestable then codes "feasible" else codes "blocked")
    ∷ []

unfoldable pub kill_chain : AttackPath → List KillChainStage
unfolding text_eq access_chain harvest_chain
kill_chain p = if is_access p then access_chain p else harvest_chain p

pub record EnrichedPath : Type 0 where
  pub path : AttackPath
  pub exploitability : ℕ
  pub reachability : ℕ
  pub chain : List KillChainStage

unfoldable pub enrich : AttackPath → EnrichedPath
unfolding exploitability_of kill_chain
enrich p = record {
  path = p;
  exploitability = (exploitability_of p).0;
  reachability = (exploitability_of p).1;
  chain = kill_chain p;
}

-- By exploitability, and where that is equal by score.
abbrev pub ranks_before : EnrichedPath → EnrichedPath → Bool
ranks_before x y =
    ltb y.exploitability x.exploitability
    || (y.exploitability == x.exploitability && ltb y.path.score x.path.score)

unfoldable pub enrich_paths : List AttackPath → List EnrichedPath
unfolding enrich sort_by
enrich_paths paths = sort_by ranks_before (map enrich paths)
