-- ===== src/Storage/Slack/Documents.antt =====
-- backend/internal/storage/slack_store.go: the documents extracted from attachments.
use go_dashboard.Prelude.{
  String, not, ◌||◌, List, [], ◌∷◌, ◌++◌, map, ◌==◌, eqb, if◌then◌else◌, select, any, Result, ok,
}
use go_dashboard.Trigger.{Time}
use go_dashboard.Storage.Sql.{Sql, Ctx}
use go_dashboard.Storage.Tables.{unix_milli, from_unix_milli, order_by, constraint_failed}
use go_dashboard.Storage.Slack.Rows.{AttachmentRow, DocumentRow, SlackDb}
use go_dashboard.Storage.Slack.Events.{on_slack, from_slack}
use go_dashboard.Slack.Domain.{ExtractedDocument}

-- `json.Marshal` of the metadata: a Go map is a JSON document, and `null` where it is nil.
abbrev pub document_row : ExtractedDocument → Time → DocumentRow
document_row value now = record {
  id = value.id;
  attachment_id = value.attachment_id;
  content = value.content;
  metadata_json = value.metadata;
  extractor_name = value.extractor_name;
  extractor_version = value.extractor_version;
  created_at = unix_milli (if eqb value.created_at 0 then now else value.created_at);
}

-- The primary key, and the foreign key to the attachment.
unfoldable pub insert_document : ExtractedDocument → Time → SlackDb → Result (Unit {0} × SlackDb)
insert_document value now db =
    if any (λ (d : DocumentRow). d.id == value.id) db.documents
      || not (any (λ (a : AttachmentRow). a.id == value.attachment_id) db.attachments)
    then constraint_failed "extracted_documents"
    else ok (tt, record db { documents = db.documents ++ document_row value now ∷ [] })

unfoldable pub create_extracted_document : Ctx → Time → ExtractedDocument → Sql (Unit {0})
create_extracted_document ctx now value = on_slack ctx (insert_document value now)

abbrev pub document_of : DocumentRow → ExtractedDocument
document_of row = record {
  id = row.id;
  attachment_id = row.attachment_id;
  content = row.content;
  metadata = row.metadata_json;
  extractor_name = row.extractor_name;
  extractor_version = row.extractor_version;
  created_at = from_unix_milli row.created_at;
}

unfoldable pub list_extracted_documents : Ctx → String → Sql (List ExtractedDocument)
list_extracted_documents ctx attachment_id = from_slack ctx λ db. map document_of (
    order_by (λ (d : DocumentRow). d.created_at)
      (select (λ (d : DocumentRow). d.attachment_id == attachment_id) db.documents))
