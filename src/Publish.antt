-- ===== src/Publish.antt =====
-- internal/publish/dispatcher.go: the fan-out to the destinations. A publisher is a parameter: what it
-- returns, and what it does to the outside world, which is of any type `W`. The goroutines run in an
-- order that is given; the metrics, which nothing reads, are left out.
pub mod Slots
use cronfoundry.Prelude.{
  get_elem?, set, ℕ, zero, suc, String, Bool, true, false, Option, none, some, List, [], ◌∷◌, ◌++◌,
  ◌==◌, str_eq, if◌then◌else◌,
}
use cronfoundry.Config.Manifest.{Destination, should_publish}

-- publish.Result; an error is its text
pub record Result : Type 0 where
  pub kind : String
  pub is_ok : Bool
  pub skipped : Bool
  pub skip_reason : String
  pub error : Option String
  pub detail : String
  pub target : String

unfoldable pub dest_type : Destination → Option String
dest_type d = elim d.github_issue [
  | some _ ↦ some "github-issue"
  | none ↦ elim d.slack [
    | some _ ↦ some "slack"
    | none ↦ elim d.discord [
      | some _ ↦ some "discord"
      | none ↦ elim d.teams [
        | some _ ↦ some "teams"
        | none ↦ elim d.http [
          | some _ ↦ some "http"
          | none ↦ elim d.email [ some _ ↦ some "email" | none ↦ none ]
        ]
      ]
    ]
  ]
]

abbrev pub or_empty : Option String → String
or_empty none = ""
or_empty (some s) = s

unfoldable pub must_dest_type : Destination → String
must_dest_type d = or_empty (dest_type d)

-- a result that was not sent
abbrev pub refused : String → String → Result
refused kind e = record {
  kind = kind;
  is_ok = false;
  skipped = false;
  skip_reason = "";
  error = some e;
  detail = "";
  target = "";
}

abbrev pub skip : Destination → Result
skip d = record {
  kind = must_dest_type d;
  is_ok = true;
  skipped = true;
  skip_reason = Prim.Native.String.◌++◌ (Prim.Native.String.◌++◌ "condition:" d.when) " not met";
  error = none;
  detail = "";
  target = "";
}

-- the slots before the goroutines write them
abbrev pub no_result : Result
no_result = record {
  kind = "";
  is_ok = false;
  skipped = false;
  skip_reason = "";
  error = none;
  detail = "";
  target = "";
}

abbrev pub Publisher : Type 0 → Type 0
Publisher W = Destination → String → W → Result × W

module _ {W : Type 0} where
  -- publishOne, given the type and what is registered for it
  abbrev pub send : Option String → (String → Option (Publisher W)) → Publisher W
  send none publishers d output w = (refused "" "destination entry has no recognised type", w)
  send (some kind) publishers d output w = elim (publishers kind) [
    | none ↦ (refused kind (Prim.Native.String.◌++◌ "no publisher for " kind), w)
    | some publish ↦ publish d output w
  ]

  unfoldable pub publish_one : (String → Option (Publisher W)) → Publisher W
  publish_one publishers d output w = send (dest_type d) publishers d output w

  -- one goroutine
  unfoldable pub deliver :
      (String → Option (Publisher W)) → (Destination → String) → Bool → Destination → W → Result × W
  deliver publishers output_for run_succeeded d w =
      if should_publish d run_succeeded
      then publish_one publishers d (output_for d) w
      else (skip d, w)

abbrev pub slots : List Destination → List Result
slots [] = []
slots (d ∷ ds) = no_result ∷ slots ds

module _ {W : Type 0} (goroutine : Destination → W → Result × W) where
  -- `results[i] = res`
  abbrev pub fill : ℕ → List Result → Result × W → List Result × W
  fill i results (r, w) = (set results i r, w)

  abbrev pub finish : ℕ → Option Destination → List Result → W → List Result × W
  finish i none results w = (results, w)
  finish i (some d) results w = fill i results (goroutine d w)

  -- the goroutines of the indexes, in the order in which they run
  unfoldable pub run_goroutines : List ℕ → List Destination → List Result → W → List Result × W
  run_goroutines [] dests results w = (results, w)
  run_goroutines (i ∷ order) dests results w =
      let (results', w') = finish i (get_elem? dests i) results w in
      run_goroutines order dests results' w'

-- Dispatch
unfoldable pub dispatch :
    {W : Type 0}
    → (String → Option (Publisher W))
    → List ℕ
    → List Destination
    → (Destination → String)
    → Bool
    → W
    → List Result × W
dispatch publishers order dests output_for run_succeeded w =
    run_goroutines (deliver publishers output_for run_succeeded) order dests (slots dests) w
