-- ===== src/Audit.antt =====
-- apps/api/src/common/audit and apps/api/src/common/filters/all-exceptions.filter.ts. A row of the
-- audit log has the columns but for the snapshots of what was written (`before`, `after`, `diff`).
use hotelsb2b.Common.{
  ℕ, Bool, Option, none, some, List, ◌∷◌, Text, String, Result, ok, err, HttpError, bad_request,
  unauthorized, forbidden, not_found, conflict, unprocessable, too_many_requests, internal, leb,
  if◌then◌else◌,
}
use hotelsb2b.Schema.{Channel}
use hotelsb2b.Http.{ActionContext}

-- An entity whose identifier is not known has `'unknown'` in its place: `none`.
pub record AuditLog : Type 0 where
  pub property_id : Option ℕ
  pub entity_type : Text
  pub entity_id : Option ℕ
  pub action : Text
  pub channel : Channel
  pub actor_user_id : Option ℕ
  pub actor_guest_id : Option ℕ
  pub ip_address : Option Text
  pub correlation_id : Option Text

pub record AuditMeta : Type 0 where
  pub entity_type : Text
  pub action : Text

-- `{ id?: string; propertyId?: string }`, as `record` reads it off a result.
pub record Entity : Type 0 where
  pub id : Option ℕ
  pub property_id : Option ℕ

-- The row that `record` writes.
unfoldable pub audit_row : AuditMeta → ActionContext → Entity → AuditLog
audit_row meta ctx entity = record {
  property_id = entity.property_id;
  entity_type = meta.entity_type;
  entity_id = entity.id;
  action = meta.action;
  channel = ctx.channel;
  actor_user_id = ctx.actor_user_id;
  actor_guest_id = ctx.actor_guest_id;
  ip_address = ctx.ip_address;
  correlation_id = ctx.correlation_id;
}

-- `record`, where the database takes the row or not; an error is caught.
unfoldable pub record_audit :
    Bool → AuditMeta → ActionContext → Entity → List AuditLog → List AuditLog
unfolding audit_row
record_audit accepted meta ctx entity log =
    if accepted then audit_row meta ctx entity ∷ log else log

-- `intercept`, around the reply of the handler: nothing is written where it throws.
unfoldable pub intercept {ℓ} :
    {A : Type ℓ}
    → Bool
    → Option AuditMeta
    → ActionContext
    → (A → Entity)
    → Result A
    → List AuditLog
    → Result A × List AuditLog
unfolding record_audit
intercept accepted none ctx entity reply log = (reply, log)
intercept accepted (some meta) ctx entity (err e) log = (err e, log)
intercept accepted (some meta) ctx entity (ok result) log =
    (ok result, record_audit accepted meta ctx (entity result) log)

-- The body of the response to an exception, less the time, and whether it is logged with its stack.
pub record ErrorResponse : Type 0 where
  pub status_code : ℕ
  pub message : String
  pub correlation_id : Option Text
  pub logged : Bool

-- `exception.getStatus()`, and 500 for what is no HttpException.
unfoldable pub status_of : HttpError → ℕ
status_of (bad_request m) = 400
status_of (unauthorized m) = 401
status_of (forbidden m) = 403
status_of (not_found m) = 404
status_of (conflict m) = 409
status_of (unprocessable m) = 422
status_of (too_many_requests m) = 429
status_of (internal m) = 500

unfoldable pub message_of : HttpError → String
message_of (bad_request m) = m
message_of (unauthorized m) = m
message_of (forbidden m) = m
message_of (not_found m) = m
message_of (conflict m) = m
message_of (unprocessable m) = m
message_of (too_many_requests m) = m
message_of (internal m) = "Internal server error"

-- `catch`.
unfoldable pub catch_exception : HttpError → Option Text → ErrorResponse
unfolding status_of message_of
catch_exception e correlation_id = record {
  status_code = status_of e;
  message = message_of e;
  correlation_id = correlation_id;
  logged = leb 500 (status_of e);
}
