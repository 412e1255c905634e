-- ===== src/Worker/Contract.antt =====
-- services/activity_worker.py: the work kinds, and the contract that handle_message checks before it
-- trusts a message. `uuid v` is `str(UUID(str(v)))`, `none` where it raises.
use Prim.Native.Char.{code}
use myota_platform.Base.{
  ℕ, String, Bool, false, ◌&&◌, Option, none, some, List, [], ◌∷◌, str_eq, ◌==◌, if◌then◌else◌, all,
  member,
}
use myota_platform.Base.Text.{is_empty}
use myota_platform.Json.{Json, boolean, number, text, object, Fields, get_value, keys}
use myota_platform.Outbox.Routing.{as_text, as_object, is_text}
use myota_platform.Outbox.Command.{is_same}

-- the keys of WORKERS
pub data Kind : Type 0 where
  qso_ingestion adif_import award_recalculate award_evaluation pdf_render statistics_rebuild : Kind

unfoldable pub name_of : Kind → String
name_of qso_ingestion = "QSO_INGESTION"
name_of adif_import = "ADIF_IMPORT"
name_of award_recalculate = "AWARD_RECALCULATE"
name_of award_evaluation = "AWARD_EVALUATION"
name_of pdf_render = "PDF_RENDER"
name_of statistics_rebuild = "STATISTICS_REBUILD"

-- WORKERS[kind][0]
unfoldable pub work_subject : Kind → String
work_subject qso_ingestion = "myota.work.activity.qso-ingestion.v1"
work_subject adif_import = "myota.work.activity.adif-import.v1"
work_subject award_recalculate = "myota.work.activity.award-recalculate.v1"
work_subject award_evaluation = "myota.work.activity.award-evaluation.v1"
work_subject pdf_render = "myota.work.activity.pdf-render.v1"
work_subject statistics_rebuild = "myota.work.activity.statistics-rebuild.v1"

-- what follows a prefix
unfoldable pub rest_after : String → String → Option String
rest_after String.[] s = some s
rest_after (String.◌∷◌ c p) String.[] = none
rest_after (String.◌∷◌ c p) (String.◌∷◌ d s) =
    let rest = rest_after p s in if code c == code d then rest else none

-- s.removeprefix(p)
unfoldable pub remove_prefix : String → String → String
remove_prefix p s = elim (rest_after p s) [ none ↦ s | some r ↦ r ]

-- a work message: its subject, its delivery count, and what json.loads makes of its data
pub record Message : Type 0 where
  pub subject : String
  pub num_delivered : ℕ
  pub decoded : Option Json

abbrev pub required_keys : List String
required_keys =
    "envelopeVersion" ∷ "workId" ∷ "workType" ∷ "createdAt" ∷ "producer" ∷ "aggregate" ∷ "payload"
    ∷ []

abbrev pub allowed_keys : List String
allowed_keys = "correlationId" ∷ "causationId" ∷ required_keys

-- v == 1; Python's True is equal to 1
abbrev pub is_one : Json → Bool
is_one (number n) = n == 1
is_one (boolean b) = b
is_one _ = false

-- s.endswith("Z")
unfoldable pub ends_with_z : String → Bool
ends_with_z String.[] = false
ends_with_z (String.◌∷◌ c s) = if is_empty s then code c == b'Z' else ends_with_z s

-- str(v).endswith("Z") of a text, or of a value whose str() does not
abbrev pub text_ends_with_z : Json → Bool
text_ends_with_z (text s) = ends_with_z s
text_ends_with_z _ = false

abbrev pub subset : List String → List String → Bool
subset xs ys = all (λ x. member x ys) xs

-- v == {"type": "activity_job", "id": work_id}
unfoldable pub is_job_aggregate : String → Json → Bool
is_job_aggregate work_id (object fs) =
    subset (keys fs) ("type" ∷ "id" ∷ [])
    && (is_text (get_value "type" fs) "activity_job" && is_text (get_value "id" fs) work_id)
is_job_aggregate work_id _ = false

-- isinstance(v, dict) and set(v) == {"jobId"} and v.get("jobId") == work_id
unfoldable pub is_job_payload : String → Json → Bool
is_job_payload work_id (object fs) =
    subset (keys fs) ("jobId" ∷ []) && is_text (get_value "jobId" fs) work_id
is_job_payload work_id _ = false

abbrev pub bind : {A B : Type 0} → Option A → (A → Option B) → Option B
bind none f = none
bind (some a) f = f a

module _ (uuid : Json → Option String) where
  -- the condition under which handle_message does not raise "work contract mismatch"
  unfoldable pub meets_contract : Kind → Message → String → Fields → Bool
  unfolding is_job_aggregate is_job_payload remove_prefix
  meets_contract kind message work_id envelope =
      is_one (get_value "envelopeVersion" envelope)
      && (is_text (get_value "workType" envelope) (remove_prefix "myota.work." (work_subject kind))
          && (subset required_keys (keys envelope)
              && (subset (keys envelope) allowed_keys
                  && (is_text (get_value "producer" envelope) "activity-service"
                      && (text_ends_with_z (get_value "createdAt" envelope)
                          && (is_same (uuid (text work_id)) work_id
                              && (is_job_payload work_id (get_value "payload" envelope)
                                  && (is_job_aggregate work_id (get_value "aggregate" envelope)
                                      && str_eq message.subject (work_subject kind)))))))))

  -- The work identifier of a valid message. An identifier that is no text never equals its UUID form.
  unfoldable pub accepted_work_id : Kind → Message → Option String
  accepted_work_id kind message = bind (bind message.decoded as_object) (λ envelope.
      bind (as_text (get_value "workId" envelope))
        (λ work_id. if meets_contract kind message work_id envelope then some work_id else none))
