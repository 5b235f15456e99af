-- ===== src/MlInference/Engine.antt =====
-- services/inference_engine.py and `hot_swap` of services/model_manager.py. ONNX Runtime and the
-- files are parameters: what opening a session and reading a sidecar give.
use mathlib.Core.Option
use g_io_t_edge_gateway.Prelude.{
  Bool, List, Option, Option-cases, String, arith, false, if◌then◌else◌, inl, inr, map, nat_eq,
  none, some, string_eq, subst, sym, true, ℕ, ◌==◌, ◌≡◌,
}
use g_io_t_edge_gateway.Floats.{Floats}

-- The sidecar of a model; `none` for a key that is missing, or a threshold that is no number.
pub record Metadata (f : Floats) : Type 0 where
  pub model_name : Option String
  pub model_version : Option String
  pub error_threshold : Option f.Float

-- An ONNX session: its first input, if there is one, and `run`; `none` where it raises.
pub record Session (f : Floats) : Type 0 where
  pub first_input : Option String
  pub run : String → List (List f.Float) → Option (List f.Float)

-- What the files of a model path give: `none` where opening or reading them raises.
pub record ModelFiles (f : Floats) : Type 0 where
  pub metadata : Option (Metadata f)
  pub session : Option (Session f)

module _ (f : Floats) where
  open f use {Float, add, div, lit}

  pub record InferenceEngine : Type 0 where
    pub session : Option (Session f)
    pub input_name : String
    pub model_name : String
    pub model_version : String
    pub loaded_at : Option ℕ
    pub metadata : Option (Metadata f)
    pub error_threshold : Float

  -- __init__; `none` for the empty metadata.
  abbrev pub init : InferenceEngine
  init = record {
    session = none;
    input_name = "";
    model_name = "";
    model_version = "";
    loaded_at = none;
    metadata = none;
    error_threshold = lit 1 0;
  }

  -- `name or default`.
  abbrev pub or_default : String → Option String → String
  or_default name found = if name == "" then Option.get_or found "" else name

  -- The end of `load_model`, from the threshold on. The answer says whether all went well.
  abbrev pub finish_load :
      String → String → ℕ → Metadata f → Option Float → InferenceEngine → InferenceEngine × Bool
  finish_load name version now metadata none e = (e, false)
  finish_load name version now metadata (some threshold) e = (
    record e {
      error_threshold = threshold;
      model_name = or_default name metadata.model_name;
      model_version = or_default version metadata.model_version;
      loaded_at = some now;
    },
    true,
  )

  -- The assignments that come before it: the session first, then the name of its input.
  abbrev pub swap :
      String
      → String
      → ℕ
      → Metadata f
      → Session f
      → Option String
      → InferenceEngine
      → InferenceEngine × Bool
  swap name version now metadata session none e = (record e { session = some session }, false)
  swap name version now metadata session (some input) e =
      finish_load name version now metadata metadata.error_threshold
        (record e { session = some session; input_name = input; metadata = some metadata })

  unfoldable pub load_model :
      String → String → ℕ → ModelFiles f → InferenceEngine → InferenceEngine × Bool
  load_model name version now files e = elim files.metadata [
    | none ↦ (e, false)
    | some metadata ↦ elim files.session [
      | none ↦ (e, false)
      | some session ↦ swap name version now metadata session session.first_input e
    ]
  ]

  -- The test session comes first; then the model is loaded without a name or version of its own.
  unfoldable pub hot_swap : ℕ → ModelFiles f → InferenceEngine → InferenceEngine × Bool
  hot_swap now files e = elim files.session [
    | none ↦ (e, false)
    | some test_session ↦ load_model "" "" now files e
  ]

  unfoldable pub predict : InferenceEngine → List (List Float) → Option (List Float)
  predict e features = elim e.session [
    | none ↦ none
    | some session ↦ session.run e.input_name features
  ]

  unfoldable pub score : InferenceEngine → List (List Float) → Option (List Float)
  score e features =
      Option.map (map (λ err. div err (add err e.error_threshold))) (predict e features)

  -- What both files and the session must have for a swap to succeed.
  abbrev pub Usable : ModelFiles f → Metadata f → Session f → String → Float → Type 0
  Usable files metadata session input threshold =
      (files.metadata ≡ some metadata)
      × (files.session ≡ some session)
      × (session.first_input ≡ some input)
      × (metadata.error_threshold ≡ some threshold)

  -- A model with a sidecar, a session with an input, and a threshold replaces the old one whole,
  -- and rows are scored by the new session with the new threshold.
  pub hot_swap-score :
      (now : ℕ) (files : ModelFiles f) (e : InferenceEngine) (metadata : Metadata f)
      (session : Session f) (input : String) (threshold : Float) (rows : List (List Float))
      → Usable files metadata session input threshold
      → ((hot_swap now files e).1 ≡ true)
        × (score (hot_swap now files e).0 rows
            ≡ Option.map (map (λ err. div err (add err threshold))) (session.run input rows))
        × ((hot_swap now files e).0.model_version ≡ Option.get_or metadata.model_version "")
  unfolding hot_swap load_model score predict
  hot_swap-score now files e metadata session input threshold rows (m, s, i, t) =
      ground (arith, m, s, i, t)

  -- How a swap may fail, and the engine after it.
  pub data SwapFails (files : ModelFiles f) (e : InferenceEngine) : InferenceEngine → Type 0 where
    no_session : files.session ≡ none → SwapFails files e e
    no_metadata : files.metadata ≡ none → SwapFails files e e
    no_input :
        (session : Session f) (metadata : Metadata f)
        → files.session ≡ some session
        → files.metadata ≡ some metadata
        → session.first_input ≡ none
        → SwapFails files e (record e { session = some session })
    no_threshold :
        (session : Session f) (metadata : Metadata f) (input : String)
        → files.session ≡ some session
        → files.metadata ≡ some metadata
        → session.first_input ≡ some input
        → metadata.error_threshold ≡ none
        → SwapFails files e
            (record e { session = some session; input_name = input; metadata = some metadata })

  -- A swap that fails does so in one of four ways, with exactly this engine after it. Where the
  -- session cannot be opened or the sidecar cannot be read, the engine is as it was. Where the
  -- session has no input, the new session alone replaces the old one. Where the sidecar has no
  -- threshold, the session, the name of its input and the metadata are the new ones, and the
  -- threshold, name, version and loading time those of the old model.
  pub failed_swap :
      (now : ℕ) (files : ModelFiles f) (e : InferenceEngine)
      → (hot_swap now files e).1 ≡ false
      → SwapFails files e (hot_swap now files e).0
  unfolding hot_swap load_model
  failed_swap now files e failed = elim (Option-cases files.session) [
    | inl s ↦ after e (ground (arith, s)) (no_session s)
    | inr (session, s) ↦ elim (Option-cases files.metadata) [
      | inl m ↦ after e (ground (arith, s, m)) (no_metadata m)
      | inr (metadata, m) ↦ elim (Option-cases session.first_input) [
        | inl i ↦
            after (record e { session = some session }) (ground (arith, s, m, i))
              (no_input session metadata s m i)
        | inr (input, i) ↦ elim (Option-cases metadata.error_threshold) [
          | inl t ↦
              after
                (record e { session = some session; input_name = input; metadata = some metadata })
                (ground (arith, s, m, i, t)) (no_threshold session metadata input s m i t)
          | inr (threshold, t) ↦ absurd (ground (arith, failed, s, m, i, t))
        ]
      ]
    ]
  ]
    where
      after :
          (e' : InferenceEngine)
          → (hot_swap now files e).0 ≡ e'
          → SwapFails files e e'
          → SwapFails files e (hot_swap now files e).0
      after e' same fails = subst (λ x. SwapFails files e x) (sym same) fails
