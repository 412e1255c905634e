-- ===== src/Outbox/Registry.antt =====
-- services/event_registry.json: the routes of the registered facts and work commands.
use myota_platform.Base.Text.{concat}
use myota_platform.Base.{String, List, [], ◌∷◌, ◌++◌, map}

-- events[type]
pub record FactRoute : Type 0 where
  pub subject : String
  pub producers : List String

-- legacyWorkRoutes[type]
pub record LegacyRoute : Type 0 where
  pub subject : String
  pub work_type : String
  pub work_id_field : String
  pub payload_fields : List String
  pub producers : List String

-- targetWorkRoutes[type]
pub record TargetRoute : Type 0 where
  pub subject : String
  pub stream : String
  pub durable : String
  pub producers : List String

pub record Catalog : Type 0 where
  pub events : List (String × FactRoute)
  pub legacy_work_routes : List (String × LegacyRoute)
  pub target_work_routes : List (String × TargetRoute)

abbrev fact : List String → String → String → String × FactRoute
fact producers event_type subject =
    (event_type, record { subject = subject; producers = producers })

abbrev activity_producers : List String
activity_producers = "activity" ∷ "activity-service" ∷ "awards" ∷ []

abbrev geodata_producers : List String
geodata_producers = "geodata" ∷ []

abbrev identity_producers : List String
identity_producers = "identity" ∷ []

abbrev programmes_producers : List String
programmes_producers = "programmes" ∷ []

abbrev activity_facts : List (String × FactRoute)
activity_facts =
    map (λ t. fact activity_producers t (concat "myota.events." t))
      ("activity.activation.closed.v1" ∷ "activity.activation.created.v1"
        ∷ "activity.adif.queued.v1" ∷ "activity.entity.cascade-deleted.v1"
        ∷ "activity.qso.recorded.v1" ∷ "awards.definition.published.v1"
        ∷ "awards.definition.saved.v1" ∷ "awards.issued.v1" ∷ "awards.rendered.v1"
        ∷ "awards.request.created.v1" ∷ [])

abbrev geodata_facts : List (String × FactRoute)
geodata_facts =
    map (λ t. fact geodata_producers t (concat "myota.events." t))
      ("geodata.conflation.resolved.v1" ∷ "geodata.entity-deletion-job.completed.v1"
        ∷ "geodata.entity-deletion-job.created.v1" ∷ "geodata.entity.candidate.created.v1"
        ∷ "geodata.entity.deleted.v1" ∷ "geodata.entity.entity-type-changed.v1"
        ∷ "geodata.entity.geometry-type-changed.v1" ∷ "geodata.entity.geometry-updated.v1"
        ∷ "geodata.entity.import-approved.v1" ∷ "geodata.entity.import-updated.v1"
        ∷ "geodata.entity.location-enriched.v1" ∷ "geodata.entity.location-updated.v1"
        ∷ "geodata.entity.metadata-updated.v1" ∷ "geodata.entity.name-changed.v1"
        ∷ "geodata.entity.reviewed.v1" ∷ "geodata.entity.source-disappeared.v1"
        ∷ "geodata.entity.status-changed.v1" ∷ "geodata.import.cancellation-requested.v1"
        ∷ "geodata.import.cancelled.v1" ∷ "geodata.import.candidates.rejected.v1"
        ∷ "geodata.import.candidates.validated.v1" ∷ "geodata.import.failed.v1"
        ∷ "geodata.import.preprocessed.v1" ∷ "geodata.import.processed.v1"
        ∷ "geodata.import.processing.completed.v1" ∷ "geodata.loadtest.cleaned.v1"
        ∷ "geodata.refresh-schedule.created.v1" ∷ [])

abbrev identity_facts : List (String × FactRoute)
identity_facts =
    map (λ t. fact identity_producers t (concat "myota.events." t))
      ("identity.account.admin-updated.v1" ∷ "identity.account.created.v1"
        ∷ "identity.account.deactivated.v1" ∷ "identity.bootstrap-admin.created.v1"
        ∷ "identity.callsign.added.v1" ∷ "identity.callsign.evidence-submitted.v1"
        ∷ "identity.callsign.primary-changed.v1" ∷ "identity.callsign.retired.v1"
        ∷ "identity.callsign.verified.v1" ∷ "identity.login.failed.v1"
        ∷ "identity.login.succeeded.v1" ∷ "identity.oidc.mapping.updated.v1"
        ∷ "identity.recovery.completed.v1" ∷ "identity.recovery.requested.v1"
        ∷ "identity.role-definition.created.v1" ∷ "identity.role-definition.updated.v1"
        ∷ "identity.role.assigned.v1" ∷ "identity.roles.replaced.v1"
        ∷ "identity.service-token.issued.v1" ∷ [])

abbrev programmes_facts : List (String × FactRoute)
programmes_facts =
    map (λ t. fact programmes_producers t (concat "myota.events." t))
      ("programme.archived.v1" ∷ "programme.content.published.v1" ∷ "programme.content.reviewed.v1"
        ∷ "programme.content.saved.v1" ∷ "programme.content.submitted.v1" ∷ "programme.created.v1"
        ∷ "programme.entity-type.assigned.v1" ∷ "programme.entity-type.catalog-saved.v1"
        ∷ "programme.entity-type.unassigned.v1" ∷ "programme.policy-draft.published.v1"
        ∷ "programme.policy-draft.saved.v1" ∷ "programme.updated.v1" ∷ [])

abbrev legacy : String → String → String → String → List String → String × LegacyRoute
legacy event_type subject work_type work_id_field payload_fields = (
  event_type,
  record {
    subject = subject;
    work_type = work_type;
    work_id_field = work_id_field;
    payload_fields = payload_fields;
    producers = geodata_producers;
  },
)

abbrev legacy_routes : List (String × LegacyRoute)
legacy_routes =
    legacy "geodata.import.queued.v1" "myota.geodata.import.preprocess.v1"
      "geodata.import-preprocess.v1" "importRunId" ("importRunId" ∷ [])
    ∷ legacy "geodata.import.recovered.v1" "myota.geodata.import.preprocess.v1"
        "geodata.import-preprocess.v1" "importRunId" ("importRunId" ∷ [])
    ∷ legacy "geodata.import.processing.queued.v1" "myota.geodata.import.process.v1"
        "geodata.import-promotion.v1" "queueId" ("queueId" ∷ [])
    ∷ legacy "geodata.import.processing.recovered.v1" "myota.geodata.import.process.v1"
        "geodata.import-promotion.v1" "queueId" ("queueId" ∷ [])
    ∷ legacy "geodata.entity-deletion-job.queued.v1" "myota.geodata.entity.delete.v1"
        "geodata.entity-delete.v1" "jobId" ("jobId" ∷ [])
    ∷ legacy "geodata.entity.location-enrichment-requested.v1"
        "myota.geodata.entity.location-enrichment.v1" "geodata.location-enrichment.v1" "requestId"
        ("entityId" ∷ "requestId" ∷ "geometryHash" ∷ "onlyMissing" ∷ "reason" ∷ [])
    ∷ []

abbrev target : List String → String → String → String → String → String × TargetRoute
target producers work_type subject stream durable = (
  work_type,
  record { subject = subject; stream = stream; durable = durable; producers = producers },
)

abbrev target_routes : List (String × TargetRoute)
target_routes =
    target activity_producers "activity.qso-ingestion.v1" "myota.work.activity.qso-ingestion.v1"
      "MYOTA_ACTIVITY_WORK" "activity-qso-ingestion-v1"
    ∷ target activity_producers "activity.adif-import.v1" "myota.work.activity.adif-import.v1"
        "MYOTA_ACTIVITY_WORK" "activity-adif-import-v1"
    ∷ target activity_producers "activity.award-recalculate.v1"
        "myota.work.activity.award-recalculate.v1" "MYOTA_ACTIVITY_WORK"
        "activity-award-recalculate-v1"
    ∷ target activity_producers "activity.award-evaluation.v1"
        "myota.work.activity.award-evaluation.v1" "MYOTA_ACTIVITY_WORK"
        "activity-award-evaluation-v1"
    ∷ target activity_producers "activity.pdf-render.v1" "myota.work.activity.pdf-render.v1"
        "MYOTA_ACTIVITY_WORK" "activity-pdf-render-v1"
    ∷ target activity_producers "activity.statistics-rebuild.v1"
        "myota.work.activity.statistics-rebuild.v1" "MYOTA_ACTIVITY_WORK"
        "activity-statistics-rebuild-v1"
    ∷ target geodata_producers "geodata.import-preprocess.v1"
        "myota.work.geodata.import-preprocess.v1" "MYOTA_GEODATA_WORK" "geodata-preprocessing-v1"
    ∷ target geodata_producers "geodata.import-promotion.v1"
        "myota.work.geodata.import-promotion.v1" "MYOTA_GEODATA_WORK" "geodata-import-promotion-v1"
    ∷ target geodata_producers "geodata.entity-delete.v1" "myota.work.geodata.entity-delete.v1"
        "MYOTA_GEODATA_WORK" "geodata-entity-deletion-v1"
    ∷ target geodata_producers "geodata.location-enrichment.v1"
        "myota.work.geodata.location-enrichment.v1" "MYOTA_GEODATA_WORK"
        "geodata-location-enrichment-v1"
    ∷ []

-- event_registry.json as it is checked in; the subject of every fact is its type under one prefix
unfoldable pub catalog : Catalog
catalog = record {
  events = activity_facts ++ (geodata_facts ++ (identity_facts ++ programmes_facts));
  legacy_work_routes = legacy_routes;
  target_work_routes = target_routes;
}
