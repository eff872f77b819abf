-- ===== src/Strategies.antt =====
-- collaboration_engine_v2/strategies.py: which packets of evidence pass between the two tracks.
-- A strategy sees observations and returns packets; it keeps only the state given here. `sent` is a
-- set of pairs, kept as a list without repetitions.
pub mod Excerpt
mod Tests
use re_takehome_submission.Common.{
  ℕ, ◌+◌, ◌-◌, ◌*◌, ◌/◌, ◌%◌, Bool, true, false, not, ◌&&◌, ◌||◌, Option, none, some, List, [], ◌∷◌,
  ◌++◌, leb, ltb, ◌==◌, if◌then◌else◌, length, take, is_empty, any, keep,
}
use re_takehome_submission.Common.Text.{Text, codes, text_eq, text_ltb, strip, decimal, last_chars}
use re_takehome_submission.Common.Results.{Result, ok, err}

pub record TrackObservation : Type 0 where
  pub model : Text
  pub round : ℕ
  pub call : ℕ
  pub candidate : Text
  pub diagnostics : Text
  pub accepted : Bool
  pub timed_out : Bool
  pub progress_candidate : Option Text
  pub residual_goals : Text
  pub progress_sha256 : Option Text

pub record PeerPacket : Type 0 where
  pub target_model : Text
  pub source_model : Text
  pub content : Text
  pub kind : Text

abbrev pub marker : Text
marker = codes "\n...[peer excerpt bounded]...\n"

-- `_excerpt`
unfoldable pub excerpt : Text → ℕ → Text
unfolding strip last_chars
excerpt t limit =
    let s = strip t in
    let available = limit - length marker in
    let head = available * 2 / 3 in
    if leb (length s) limit
    then s
    else if leb limit (length marker)
    then take limit s
    else take head s ++ (marker ++ last_chars (available - head) s)

abbrev pub content_header : Text
content_header = codes "Independent peer's failed Lean candidate:\n"

abbrev pub content_middle : Text
content_middle = codes "\n\nLean diagnostics from that candidate:\n"

-- `_content`
unfoldable pub content : TrackObservation → ℕ → Text
unfolding excerpt
content o limit =
    let available = limit - length content_header - length content_middle in
    let candidate_limit = available * 2 / 3 in
    take limit (
      content_header
      ++ (excerpt o.candidate candidate_limit
          ++ (content_middle ++ excerpt o.diagnostics (available - candidate_limit))))

abbrev pub progress_header : Text
progress_header =
    codes
      "Compiler-grounded progress from the independent peer. The skeleton was warm-checked and compiles only up to its explicit `sorry` holes. Preserve what compiles and fill the residual holes; never return `sorry` in a final candidate.\n\nCompiling skeleton:\n"

abbrev pub progress_middle : Text
progress_middle = codes "\n\nResidual Lean goals and diagnostics:\n"

abbrev pub text_or : Text → Option Text → Text
text_or d none = d
text_or d (some t) = t

-- An f-string writes a missing digest as `None`.
provenance : TrackObservation → Text
unfolding decimal
provenance o =
    codes "\n\nProvenance: model="
    ++ (o.model
        ++ (codes "; call="
            ++ (decimal o.call
                ++ (codes "; skeleton_sha256=" ++ text_or (codes "None") o.progress_sha256))))

-- `_progress_content`
unfoldable pub progress_content : TrackObservation → ℕ → Text
unfolding excerpt provenance
progress_content o limit =
    let available =
      limit - length progress_header - length progress_middle - length (provenance o) in
    let skeleton_limit = available * 3 / 4 in
    take limit (
      progress_header
      ++ (excerpt (text_or [] o.progress_candidate) skeleton_limit
          ++ (progress_middle
              ++ (excerpt o.residual_goals (available - skeleton_limit) ++ provenance o))))

-- `ReciprocalCadence`
pub record Cadence : Type 0 where
  pub packet_chars : ℕ
  pub repeat : Bool
  pub exchanges : ℕ

-- `ProgressPackets`, and `ProgressFillPackets` where `fill` holds.
pub record Progress : Type 0 where
  pub packet_chars : ℕ
  pub models : List Text
  pub sent : List (Text × Text)
  pub fill : Bool

pub data Strategy : Type 0 where
  no_collaboration : Strategy
  reciprocal : Cadence → Strategy
  progress : Progress → Strategy

abbrev pub fill_kind : Text
fill_kind = codes "progress-fill-event-latest-v2"

unfoldable pub strategy_id : Strategy → Text
strategy_id no_collaboration = codes "none"
strategy_id (reciprocal c) =
    if c.repeat then codes "reciprocal-every-eligible-v1" else codes "reciprocal-once-v1"
strategy_id (progress p) = if p.fill then fill_kind else codes "progress-event-latest-v1"

unfoldable pub packet : TrackObservation → TrackObservation → Cadence → PeerPacket
packet target source c = record {
  target_model = target.model;
  source_model = source.model;
  content = content source c.packet_chars;
  kind = strategy_id (reciprocal c);
}

-- The exchange between two observations in the order of their models.
unfoldable pub exchange : TrackObservation → TrackObservation → Cadence → List PeerPacket × Cadence
exchange left right c =
    if not (left.round == right.round) || (left.accepted || right.accepted)
    then ([], c)
    else (packet left right c ∷ packet right left c ∷ [], record c { exchanges = c.exchanges + 1 })

-- `ReciprocalCadence.after_round`; the sort by model is stable.
unfoldable pub cadence_round : Cadence → List TrackObservation → List PeerPacket × Cadence
cadence_round c (a ∷ b ∷ []) =
    if not (c.exchanges == 0) && not c.repeat
    then ([], c)
    else if text_ltb b.model a.model
    then exchange b a c
    else exchange a b c
cadence_round c _ = ([], c)

abbrev pub is_missing : Option Text → Bool
is_missing none = true
is_missing (some t) = is_empty t

abbrev pub pair_eq : Text × Text → Text × Text → Bool
pair_eq a b = text_eq a.0 b.0 && text_eq a.1 b.1

-- A new skeleton goes to the one other model.
unfoldable pub send :
    Progress → TrackObservation → Text × Text → List Text → List PeerPacket × Progress
send p o key (target ∷ []) = (
  record {
    target_model = target;
    source_model = o.model;
    content = progress_content o p.packet_chars;
    kind = strategy_id (progress p);
  }
      ∷ [],
  record p { sent = key ∷ p.sent },
)
send p o key _ = ([], p)

-- `ProgressPackets.after_observation`
unfoldable pub progress_observation : Progress → TrackObservation → List PeerPacket × Progress
progress_observation p o =
    let key : Text × Text = (o.model, text_or [] o.progress_sha256) in
    if is_missing o.progress_candidate || is_missing o.progress_sha256
    then ([], p)
    else if any (pair_eq key) p.sent
    then ([], p)
    else send p o key (keep (λ m. not (text_eq m o.model)) p.models)

-- `after_round` of each class.
unfoldable pub after_round : Strategy → List TrackObservation → List PeerPacket × Strategy
after_round (reciprocal c) os = let (ps, c') = cadence_round c os in (ps, reciprocal c')
after_round no_collaboration os = ([], no_collaboration)
after_round (progress p) os = ([], progress p)

-- `after_observation` of each class.
unfoldable pub after_observation : Strategy → TrackObservation → List PeerPacket × Strategy
after_observation (progress p) o = let (ps, p') = progress_observation p o in (ps, progress p')
after_observation no_collaboration o = ([], no_collaboration)
after_observation (reciprocal c) o = ([], reciprocal c)

pub data UnknownStrategy : Type 0 where
  unknown_strategy : UnknownStrategy

-- `create_strategy`
unfoldable pub create_strategy : Text → ℕ → List Text → Result UnknownStrategy Strategy
unfolding text_eq
create_strategy id chars models =
    if text_eq id (codes "none")
    then ok no_collaboration
    else if text_eq id (codes "reciprocal-once-v1")
    then ok (reciprocal (record { packet_chars = chars; repeat = false; exchanges = 0 }))
    else if text_eq id (codes "reciprocal-every-eligible-v1")
    then ok (reciprocal (record { packet_chars = chars; repeat = true; exchanges = 0 }))
    else if text_eq id (codes "progress-event-latest-v1")
    then ok (progress (record { packet_chars = chars; models = models; sent = []; fill = false }))
    else if text_eq id fill_kind
    then ok (progress (record { packet_chars = chars; models = models; sent = []; fill = true }))
    else err unknown_strategy
