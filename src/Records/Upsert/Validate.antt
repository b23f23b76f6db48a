-- ===== src/Records/Upsert/Validate.antt =====
-- records/source-upsert.ts: `validate`.
use fortemi_react.Common.{
  ℕ, suc, String, Bool, false, not, ◌&&◌, ◌||◌, Option, none, some, List, [], ◌∷◌, length, ltb,
  nat_beq, or_else, ◌==◌, includes, if◌then◌else◌, string_eq,
}
use fortemi_react.Common.Text.{text_length}
use fortemi_react.Records.Receipts.{
  SourceUpsertReasonCode, invalid_batch_metadata, batch_size_out_of_bounds, invalid_item,
  duplicate_external_id_in_batch, content_digest_mismatch, caller_stable_id_conflict, rejected,
  SourceUpsertItemResult,
}
use fortemi_react.Records.Upsert.{SourceUpsertItem, before_nul, source_identity_hash}

-- An absent or empty text is falsy.
abbrev pub is_given : Option String → Bool
is_given none = false
is_given (some s) = not (s == "")

-- `if (test) reason ??= code`
abbrev pub blame :
    Bool → SourceUpsertReasonCode → Option SourceUpsertReasonCode → Option SourceUpsertReasonCode
blame test code (some r) = some r
blame test code none = if test then some code else none

abbrev is_too_long : ℕ → Option String → Bool
is_too_long limit none = false
is_too_long limit (some s) = ltb limit (text_length s)

abbrev is_empty_text : Option String → Bool
is_empty_text none = false
is_empty_text (some s) = s == ""

abbrev pub lacks_field : SourceUpsertItem → Bool
lacks_field item =
    not (is_given item.source.tenant_id)
    || (item.source.namespace == ""
        || (item.source.external_id == ""
            || (item.source.source_schema_version == ""
                || (item.source.import_run_id == "" || item.content == ""))))

abbrev pub has_bad_metadata : SourceUpsertItem → Bool
has_bad_metadata item =
    is_too_long 500 item.source.source_id
    || (is_empty_text item.source.source_id
        || (is_too_long 500 item.source.workspace_id || is_empty_text item.source.workspace_id))

abbrev pub is_oversized : SourceUpsertItem → Bool
is_oversized item =
    ltb 100 (text_length (or_else item.format "markdown"))
    || (is_too_long 2000 item.title || ltb 262144 (text_length (or_else item.metadata "{}")))

-- The key of the set `seen`; `undefined` is written out by the template.
abbrev pub key_of : SourceUpsertItem → String
key_of item = before_nul (or_else item.source.tenant_id "undefined") (
    before_nul (or_else item.source.archive_id "")
      (before_nul item.source.namespace item.source.external_id))

abbrev pub is_taken : Option String → List String → Bool
is_taken none stable_ids = false
is_taken (some id) stable_ids = not (id == "") && includes id stable_ids

abbrev pub remember : Option String → List String → List String
remember none stable_ids = stable_ids
remember (some id) stable_ids = if id == "" then stable_ids else id ∷ stable_ids

module _ (compute_hash : String → String) where
  abbrev pub has_wrong_digest : SourceUpsertItem → Bool
  has_wrong_digest item = elim item.content_digest [
    | none ↦ false
    | some d ↦ not (d == "") && not (d == compute_hash item.content)
  ]

  -- The loop, with the reason so far, `seen` and `stableIds`.
  unfoldable pub validate_loop :
      List SourceUpsertItem
      → List String
      → List String
      → Option SourceUpsertReasonCode
      → Option SourceUpsertReasonCode
  validate_loop [] seen stable_ids reason = reason
  validate_loop (item ∷ items) seen stable_ids reason =
      validate_loop items (key_of item ∷ seen) (remember item.source.caller_stable_id stable_ids) (
        blame (is_taken item.source.caller_stable_id stable_ids) caller_stable_id_conflict (
          blame (includes (key_of item) seen) duplicate_external_id_in_batch (
            blame (has_wrong_digest item) content_digest_mismatch (
              blame (is_oversized item) invalid_item (
                blame (has_bad_metadata item) invalid_batch_metadata
                  (blame (lacks_field item) invalid_item reason))))))

  abbrev pub reject_all :
      SourceUpsertReasonCode → ℕ → List SourceUpsertItem → List SourceUpsertItemResult
  reject_all reason i [] = []
  reject_all reason i (item ∷ items) =
      record {
        index = i;
        outcome = rejected;
        note_id = none;
        external_id_hash = source_identity_hash compute_hash item.source;
        content_digest = compute_hash item.content;
        reason_code = some reason;
      }
      ∷ reject_all reason (suc i) items

  -- The reason for which `validate` rejects all items, if there is one.
  unfoldable pub validate :
      List SourceUpsertItem → ℕ → Option SourceUpsertReasonCode → Option SourceUpsertReasonCode
  unfolding validate_loop
  validate items max_items initial = validate_loop items [] [] (
      blame (nat_beq (length items) 0 || ltb max_items (length items)) batch_size_out_of_bounds
        initial)
